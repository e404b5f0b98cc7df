-- ===== src/Address/Authority.antt =====
-- The written host and port of an address, and their parts back.
use sqns.Base.{
  ℕ, suc, ◌<◌, ◌^◌, ◌≡◌, ◌≢◌, refl, ap, ◌∙◌, true, false, [], ◌∷◌, ◌++◌, append_assoc, All,
  All-append, ◌⊎◌, ◌==◌, arith, Bool-cases, inl, inr,
}
use sqns.Bytes.{IsArray}
use sqns.Errors.{Result, ok}
use sqns.Protocol.{default_port}
use sqns.Text.{Text, strip_prefix, count, show_u16}
use sqns.Text.Trim.{
  Lacks, split_once-append, split_once-Lacks, count-Lacks, count-append, Lacks-count,
}
use sqns.Text.Numbers.{IsDigit, show_u16-lem, parse_u16-show_u16}
use sqns.Address.{
  ServerAddr, colon, slash, open_bracket, close_bracket, contains_colon, bracketed, authority,
  written_authority, parse_port, port_behind, split_bare, split_authority,
}

-- The host is not empty and has no slash and no brackets, and the number of the port and the size of the
-- key are as the types have them.
pub record IsAddress (a : ServerAddr) : Type 0 where
  pub named : a.host ≢ []
  pub no_slash : Lacks slash a.host
  pub no_open : Lacks open_bracket a.host
  pub no_close : Lacks close_bracket a.host
  pub port : a.port < 2 ^ 16
  pub key : IsArray 32 a.key

digits-Lacks : (c : ℕ) (s : Text) → c < 48 ⊎ 57 < c → All IsDigit s → Lacks c s
digits-Lacks c [] out h = tt
digits-Lacks c (d ∷ s) out h = (ground arith, digits-Lacks c s out h.1)

parse_port-show_u16 : (n : ℕ) → n < 2 ^ 16 → parse_port (show_u16 n) ≡ ok n
unfolding parse_port
parse_port-show_u16 n lt = rw (parse_u16-show_u16 n lt, parse_port) refl

-- A bracketed host, and what comes behind the bracket.
split_bracketed :
    (host tail : Text) (port : ℕ)
    → Lacks close_bracket host
    → port_behind tail ≡ ok port
    → split_authority (open_bracket ∷ (host ++ (close_bracket ∷ tail))) ≡ ok (host, port)
unfolding split_authority strip_prefix
split_bracketed host tail port h p =
    rw (split_once-append close_bracket host tail h, split_authority, p) refl

pub split_unbracketed :
    (s : Text) → s ≢ [] → Lacks open_bracket s → split_authority s ≡ split_bare s
unfolding split_authority strip_prefix
split_unbracketed [] h k = absurd (h refl)
split_unbracketed (c ∷ s) h k = ground (arith, k.0)

split_bare-host : (host : Text) → Lacks colon host → split_bare host ≡ ok (host, default_port)
unfolding split_bare
split_bare-host host h =
    rw (count-Lacks colon host h, split_once-Lacks colon host h, split_bare) refl

pub split_bare-port :
    (host : Text) (n : ℕ)
    → Lacks colon host
    → n < 2 ^ 16
    → split_bare (host ++ (colon ∷ show_u16 n)) ≡ ok (host, n)
unfolding split_bare count
split_bare-port host n h lt =
    rw
      (one_colon, split_once-append colon host (show_u16 n) h, split_bare, parse_port-show_u16 n lt)
      refl
  where
    behind : count colon (show_u16 n) ≡ 0
    behind =
        count-Lacks colon (show_u16 n)
          (digits-Lacks colon (show_u16 n) (inr (omega arith)) (show_u16-lem n).0)

    one_colon : count colon (host ++ (colon ∷ show_u16 n)) ≡ 1
    one_colon = count-append colon host (colon ∷ show_u16 n) h ∙ ap suc behind

bracketed-append :
    (host tail : Text) → bracketed host ++ tail ≡ open_bracket ∷ (host ++ (close_bracket ∷ tail))
bracketed-append host tail = ap (◌∷◌ open_bracket) (append_assoc host (close_bracket ∷ []) tail)

port_behind-colon : (n : ℕ) → n < 2 ^ 16 → port_behind (colon ∷ show_u16 n) ≡ ok n
unfolding port_behind strip_prefix
port_behind-colon n lt = parse_port-show_u16 n lt

no_colon-Lacks : (host : Text) → contains_colon host ≡ false → Lacks colon host
no_colon-Lacks host h = Lacks-count colon host (ground arith)

pub append_nonempty : (s t : Text) → s ≢ [] → s ++ t ≢ []
append_nonempty [] t h e = h refl
append_nonempty (c ∷ s) t h e = cc

pub Lacks-port :
    (c : ℕ) (host : Text) (n : ℕ)
    → c < 48 ⊎ 58 < c
    → Lacks c host
    → Lacks c (host ++ (colon ∷ show_u16 n))
Lacks-port c host n out h =
    All-append (λ x. (x == c) ≡ false) host (colon ∷ show_u16 n) h
      (ground arith, digits-Lacks c (show_u16 n) (wider out) (show_u16-lem n).0)
  where
    wider : c < 48 ⊎ 58 < c → c < 48 ⊎ 57 < c
    wider (inl a) = inl a
    wider (inr b) = inr (omega arith)

Lacks-bracketed : (host : Text) → Lacks slash host → Lacks slash (bracketed host)
Lacks-bracketed host h =
    (refl, All-append (λ x. (x == slash) ≡ false) host (close_bracket ∷ []) h (refl, tt))

pub split_authority-written :
    (a : ServerAddr) → IsAddress a → split_authority (written_authority a) ≡ ok (a.host, a.port)
unfolding written_authority authority port_behind strip_prefix
split_authority-written a h = elim (Bool-cases (contains_colon a.host)) [
  | inl brackets ↦ elim (Bool-cases (a.port == default_port)) [
    | inl default ↦
        rw (default, brackets)
          (split_bracketed a.host [] default_port h.no_close no_port ∙ at_default default)
    | inr other ↦
        rw (other, brackets)
          (ap split_authority (bracketed-append a.host (colon ∷ show_u16 a.port))
            ∙ split_bracketed a.host (colon ∷ show_u16 a.port) a.port h.no_close
                (port_behind-colon a.port h.port))
  ]
  | inr bare ↦ elim (Bool-cases (a.port == default_port)) [
    | inl default ↦
        rw (default, bare)
          (split_unbracketed a.host h.named h.no_open
            ∙ split_bare-host a.host (no_colon-Lacks a.host bare)
            ∙ at_default default)
    | inr other ↦
        rw (other, bare)
          (split_unbracketed (a.host ++ (colon ∷ show_u16 a.port))
              (append_nonempty a.host (colon ∷ show_u16 a.port) h.named)
              (Lacks-port open_bracket a.host a.port (inr (omega arith)) h.no_open)
            ∙ split_bare-port a.host a.port (no_colon-Lacks a.host bare) h.port)
  ]
]
  where
    with_port : ℕ → Result (Text × ℕ)
    with_port n = ok (a.host, n)

    at_default : (a.port == default_port) ≡ true → with_port default_port ≡ with_port a.port
    at_default e = let same : default_port ≡ a.port = ground arith in ap with_port same

    no_port : port_behind [] ≡ ok default_port
    no_port = refl

pub Lacks-written : (a : ServerAddr) → IsAddress a → Lacks slash (written_authority a)
unfolding written_authority authority
Lacks-written a h = elim (Bool-cases (contains_colon a.host)) [
  | inl brackets ↦ elim (Bool-cases (a.port == default_port)) [
    | inl default ↦ rw (brackets, default) (Lacks-bracketed a.host h.no_slash)
    | inr other ↦
        rw (brackets, other)
          (Lacks-port slash (bracketed a.host) a.port (inl (omega arith))
            (Lacks-bracketed a.host h.no_slash))
  ]
  | inr bare ↦ elim (Bool-cases (a.port == default_port)) [
    | inl default ↦ rw (bare, default) (h.no_slash)
    | inr other ↦ rw (bare, other) (Lacks-port slash a.host a.port (inl (omega arith)) h.no_slash)
  ]
]
