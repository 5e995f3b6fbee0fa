-- ===== src/InetAddress/Text.antt =====
-- An address, its text, and back.
use netfish.Prelude.{
  ℕ, ◌^◌, ◌<◌, ◌≤◌, ◌≡◌, ◌≢◌, refl, List, [], ◌∷◌, ◌++◌, some, arith, ◌==◌, if◌then◌else◌, length,
  take_all, length-append,
}
use netfish.Prelude.Decimal.{decimal, value_from, value-decimal, length-decimal}
use netfish.Sockets.{
  Inet, af_inet, host_to_network16, network_to_host16, to_host_port, from_host_port,
}
use netfish.InetAddress.{InetAddress, from_ip, to_text}

abbrev pub NoColon : List ℕ → Type 0
NoColon [] = Unit {0}
NoColon (c ∷ cs) = (c ≢ b':') × NoColon cs

-- The text of an address: at most 15 characters, none a colon, and `inet_pton` reads it back.
pub record IsHost (net : Inet) (a : ℕ) (host : List ℕ) : Type 0 where
  pub written : net.ntop a ≡ some host
  pub read : net.pton host ≡ some a
  pub short : length host ≤ 15
  pub plain : NoColon host

-- What the C library documents of the conversions.
pub record IsInet (net : Inet) : Type 0 where
  pub swapped : (p : ℕ) → p < 2 ^ 16 → net.ntohs (net.htons p) ≡ p
  pub hosts : (a : ℕ) → a < 2 ^ 32 → (host : List ℕ) × IsHost net a host

-- What stands before the first colon, and behind it.
abbrev pub before_colon : List ℕ → List ℕ
before_colon [] = []
before_colon (c ∷ cs) = let rest = c ∷ before_colon cs in if c == b':' then [] else rest

abbrev pub behind_colon : List ℕ → List ℕ
behind_colon [] = []
behind_colon (c ∷ cs) = let rest = behind_colon cs in if c == b':' then cs else rest

split_colon :
    (host rest : List ℕ)
    → NoColon host
    → (before_colon (host ++ (b':' ∷ rest)) ≡ host) × (behind_colon (host ++ (b':' ∷ rest)) ≡ rest)
split_colon [] rest h = (refl, refl)
split_colon (c ∷ cs) rest (h, hs) =
    let (before, behind) = split_colon cs rest hs in
    (ground (arith, h, before), ground (arith, h, behind))

-- The address that stands for `a` and port `p`.
abbrev pub address : Inet → ℕ → ℕ → InetAddress
address net a p = record { sin_family = af_inet; sin_port = net.htons p; sin_addr = a }

module _ (net : Inet) (documented : IsInet net) where
  uncut :
      (host : List ℕ) (p : ℕ)
      → length host ≤ 15
      → p < 2 ^ 16
      → length (host ++ (b':' ∷ decimal p)) ≤ 21
  uncut host p short h =
      omega (arith, length-append host (b':' ∷ decimal p), length-decimal p 4 (omega arith))

  to_text-host :
      (a p : ℕ) (host : List ℕ)
      → IsHost net a host
      → p < 2 ^ 16
      → to_text net (address net a p) ≡ host ++ (b':' ∷ decimal p)
  unfolding to_text to_host_port network_to_host16
  to_text-host a p host v h =
      rw (v.written, documented.swapped p h)
        (take_all 31 (host ++ (b':' ∷ decimal p)) (omega (arith, uncut host p v.short h)))

  -- An address and a port come back from their text: `toHostPort` writes the host, a colon and the
  -- port, nothing of it cut off, and the constructor makes the same address of what stands before the
  -- colon and the number behind it; and the text of an address made from a host as `inet_ntop` writes
  -- it is that host, a colon and the port.
  pub from_ip-to_text :
      (a p : ℕ)
      → a < 2 ^ 32
      → p < 2 ^ 16
      → (let text = to_text net (address net a p) in
          from_ip net (before_colon text) (value_from 0 (behind_colon text)) ≡ address net a p)
        × ((host : List ℕ)
            → net.ntop a ≡ some host
            → to_text net (from_ip net host p) ≡ host ++ (b':' ∷ decimal p))
  unfolding from_ip from_host_port host_to_network16
  from_ip-to_text a p ha hp =
      let (host, v) = documented.hosts a ha in
      let (before, behind) = split_colon host (decimal p) v.plain in
      let text = to_text-host a p host v hp in
      (
        rw text (rw (before, behind, v.read, value-decimal p) refl),
        λ host' e. let same : host' ≡ host = cc (v.written) in rw same (rw v.read text),
      )
