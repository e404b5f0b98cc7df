-- ===== src/Record/Order.antt =====
-- The order in which records replace each other.
use sqns.Base.{ℕ, ◌≡◌, true, false, arith}
use sqns.Record.{Record, is_terminal, is_expired, supersedes}

-- Replacing is transitive, goes one way only, and never replaces a record that retires its key.
pub supersedes_order :
    (r s t : Record)
    → supersedes r s ≡ true
    → supersedes s t ≡ true
    → (supersedes r t ≡ true)
      × (supersedes s r ≡ false)
      × (supersedes r r ≡ false)
      × (is_terminal s ≡ false)
      × (is_terminal t ≡ false)
unfolding supersedes
supersedes_order r s t h k = ground arith

-- A record that retires its key never expires.
pub is_expired-is_terminal :
    (r : Record) (now : ℕ) → is_terminal r ≡ true → is_expired r now ≡ false
unfolding is_expired
is_expired-is_terminal r now dead = ground arith
