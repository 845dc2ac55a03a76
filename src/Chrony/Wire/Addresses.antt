-- ===== src/Chrony/Wire/Addresses.antt =====
-- Addresses as they are written and read.
use truenas_ros_utils.Prelude.{
  ℕ, ◌<◌, ◌≡◌, refl, ap, ◌∙◌, arith, List, [], ◌∷◌, ◌++◌, length, take, replicate, ok, append_assoc,
  subst, le→ltb, length-append, take-append, drop-append,
}
use truenas_ros_utils.Prelude.Bytes.{be_value, u16_to_be_bytes, u32_mod, u32-be_value}
use truenas_ros_utils.Chrony.Types.{Address, unspecified, v4, v6, id}
use truenas_ros_utils.Chrony.Wire.{
  Reader, put_address, address, take_chunk, u16, skip, address_of, addr_bytes, family_of,
}

-- The octets that `Ipv4Addr` and `Ipv6Addr` have, and an identifier of 32 bits.
abbrev pub IsAddress : Address → Type 0
IsAddress unspecified = Unit {0}
IsAddress (v4 octets) = length octets ≡ 4
IsAddress (v6 octets) = length octets ≡ 16
IsAddress (id n) = n < u32_mod

abbrev over : List ℕ → Reader
over bs = record { rest = bs }

take_chunk-append :
    (n : ℕ) (front rest : List ℕ)
    → length front ≡ n
    → take_chunk n (over (front ++ rest)) ≡ (ok front, over rest)
unfolding take_chunk
take_chunk-append n front rest h =
    subst (λ k. take_chunk k (over (front ++ rest)) ≡ (ok front, over rest)) h
      (rw
        (
          le→ltb (length (front ++ rest)) (length front) (omega (arith, length-append front rest)),
          take-append front rest,
          drop-append front rest,
        )
        refl)

-- The three parts of an address, whatever their bytes.
address-parts :
    (addr family pad rest : List ℕ)
    → length addr ≡ 16
    → length family ≡ 2
    → length pad ≡ 2
    → address (over (addr ++ (family ++ (pad ++ rest))))
      ≡ (ok (address_of addr (be_value 0 family)), over rest)
unfolding address u16 skip
address-parts addr family pad rest h k l =
    rw
      (
        take_chunk-append 16 addr (family ++ (pad ++ rest)) h,
        take_chunk-append 2 family (pad ++ rest) k,
        take_chunk-append 2 pad rest l,
      )
      refl

v4_octets : (octets : List ℕ) → length octets ≡ 4 → take 4 (octets ++ replicate 12 0) ≡ octets
v4_octets octets h =
    subst (λ n. take n (octets ++ replicate 12 0) ≡ octets) h (take-append octets (replicate 12 0))

address_of-addr_bytes :
    (a : Address)
    → IsAddress a
    → address_of (addr_bytes a) (be_value 0 (u16_to_be_bytes (family_of a))) ≡ a
unfolding address_of addr_bytes family_of
address_of-addr_bytes unspecified h = refl
address_of-addr_bytes (v4 octets) h = ap v4 (v4_octets octets h)
address_of-addr_bytes (v6 octets) h = refl
address_of-addr_bytes (id n) h = ap id (u32-be_value n h)

length-addr_bytes : (a : Address) → IsAddress a → length (addr_bytes a) ≡ 16
unfolding addr_bytes
length-addr_bytes unspecified h = refl
length-addr_bytes (v4 octets) h = omega (arith, length-append octets (replicate 12 0))
length-addr_bytes (v6 octets) h = h
length-addr_bytes (id n) h = refl

pub length-put_address : (a : Address) → IsAddress a → length (put_address [] a) ≡ 20
unfolding put_address
length-put_address a h = omega (
  arith,
  length-append (addr_bytes a) (u16_to_be_bytes (family_of a) ++ (0 ∷ 0 ∷ [])),
  length-addr_bytes a h,
)

-- An address is read back from what is written of it, and what follows is left.
pub address-put_address :
    (a : Address) (rest : List ℕ)
    → IsAddress a
    → address (record { rest = put_address [] a ++ rest }) ≡ (ok a, record { rest = rest })
unfolding put_address
address-put_address a rest h =
    let family = u16_to_be_bytes (family_of a) in
    ap (λ l. address (over l)) (append_assoc (addr_bytes a) (family ++ (0 ∷ 0 ∷ [])) rest)
    ∙ (address-parts (addr_bytes a) family (0 ∷ 0 ∷ []) rest (length-addr_bytes a h) refl refl
        ∙ ap (λ x. (ok x, over rest)) (address_of-addr_bytes a h))
