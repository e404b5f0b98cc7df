-- ===== src/Cli/Commands/First.antt =====
-- The first publication of a service key that was just delegated.
use sqns.Base.{ℕ, List}
use sqns.Bytes.{Bytes}
use sqns.Crypto.{Ed25519}
use sqns.Record.{Endpoint, Delegation}
use sqns.Server.{Server}
use sqns.Resolver.{Resolver}
use sqns.Publisher
use sqns.Publisher.{Publisher}
use sqns.Text.{Text}
use sqns.Key.{Encodings}

module _ (ed : Ed25519) (enc : Encodings) where
  abbrev publisher_of : Bytes → Delegation → List Endpoint → ℕ → ℕ → Publisher
  publisher_of seed granted eps ttl now = record {
    signing_key = seed;
    delegation = granted;
    endpoints = eps;
    ttl = ttl;
    serial = now;
  }
