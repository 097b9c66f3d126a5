-- ===== src/Meta/ClientIp.antt =====
-- The address of the client: ExtractIP of internal/meta/extract.go.
use unirate.Prelude.{
  ℕ, zero, suc, ◌+◌, ◌-◌, ◌≤◌, ◌<◌, ◌≡◌, false, ◌==◌ as nat_eq, if◌then◌else◌, none, List, [], ◌∷◌,
  ◌++◌, ltb, length, get_elem?, refl, arith, Bool-cases, inl, inr, ap, length-append,
}
use unirate.Prelude.Text.{Bytes, codes}
use unirate.Meta.{
  is_empty, split_comma, Config, Request, Net, hop, hop_ip, forwarded_ip, real_ip, extract_ip,
}

-- The parts of a text with a comma in it.
split_comma-cons :
    (s : Bytes) → (part : Bytes) × (parts : List Bytes) × (split_comma s ≡ part ∷ parts)
unfolding split_comma
split_comma-cons [] = ([], [], refl)
split_comma-cons (c ∷ s) =
    let (part, parts, e) = split_comma-cons s in
    elim (Bool-cases (nat_eq c b',')) [
      | inl comma ↦ ([], part ∷ parts, rw (e, comma) refl)
      | inr other ↦ (c ∷ part, parts, rw (e, other) refl)
    ]

split_comma-append : (s t : Bytes) → split_comma (s ++ (b',' ∷ t)) ≡ split_comma s ++ split_comma t
unfolding split_comma
split_comma-append [] t = let (part, parts, e) = split_comma-cons t in rw e refl
split_comma-append (c ∷ s) t =
    let (part, parts, e) = split_comma-cons s in
    elim (Bool-cases (nat_eq c b',')) [
      | inl comma ↦ rw (split_comma-append s t, e, comma) refl
      | inr other ↦ rw (split_comma-append s t, e, other) refl
    ]

get_elem?-append :
    {A : Type 0} (xs ys : List A) (j i : ℕ)
    → j ≡ length xs + i
    → get_elem? (xs ++ ys) j ≡ get_elem? ys i
get_elem?-append [] ys j i e = ap (get_elem? ys) (omega (arith, e))
get_elem?-append (x ∷ xs) ys zero i e = absurd (omega (arith, e))
get_elem?-append (x ∷ xs) ys (suc j) i e = get_elem?-append xs ys j i (omega (arith, e))

-- What stands to the left of the hops does not matter.
hop-append :
    (net : Net) (hops : ℕ) (xs ys : List Bytes)
    → 0 < hops
    → hops ≤ length ys
    → hop net hops (xs ++ ys) ≡ get_elem? ys (length ys - hops)
unfolding hop
hop-append net hops xs ys some_hop le =
    let sizes = length-append xs ys in
    ground (
      arith,
      some_hop,
      le,
      sizes,
      get_elem?-append xs ys (length (xs ++ ys) - hops) (length ys - hops)
          (omega (arith, sizes, le)),
    )

is_empty-comma : (s t : Bytes) → is_empty (s ++ (b',' ∷ t)) ≡ false
unfolding is_empty
is_empty-comma [] t = refl
is_empty-comma (c ∷ s) t = refl

abbrev pub xff : Bytes
xff = codes "X-Forwarded-For"

module _ (net : Net) where
  forwarded_ip-append :
      (c : Config) (r : Request) (forged genuine : Bytes)
      → r.get xff ≡ forged ++ (b',' ∷ genuine)
      → c.trusted_proxy_hops ≤ length (split_comma genuine)
      → forwarded_ip net c r ≡ (
          if ltb 0 c.trusted_proxy_hops
          then hop_ip net (
              get_elem? (split_comma genuine) (length (split_comma genuine) - c.trusted_proxy_hops))
          else none)
  unfolding forwarded_ip
  forwarded_ip-append c r forged genuine sent le = elim (Bool-cases (ltb 0 c.trusted_proxy_hops)) [
    | inr no_hop ↦ rw no_hop refl
    | inl some_hop ↦
        rw (some_hop, sent, is_empty-comma forged genuine, split_comma-append forged genuine)
          (ap (hop_ip net) (
            hop-append net c.trusted_proxy_hops (split_comma forged) (split_comma genuine)
              (ground (arith, some_hop)) le))
  ]

  -- A client cannot choose its address by what it writes into X-Forwarded-For: where two requests agree in
  -- their peer and in the header of the real address, if one is configured, and the trusted proxies have
  -- appended the same text to whatever the two clients wrote, with as many values as there are trusted
  -- hops at least, the two have the same address.
  pub extract_ip-forged :
      (c : Config) (r r' : Request) (forged forged' genuine : Bytes)
      → r.get xff ≡ forged ++ (b',' ∷ genuine)
      → r'.get xff ≡ forged' ++ (b',' ∷ genuine)
      → c.trusted_proxy_hops ≤ length (split_comma genuine)
      → r.remote_addr ≡ r'.remote_addr
      → r.get c.real_ip_header ≡ r'.get c.real_ip_header
      → extract_ip net c r ≡ extract_ip net c r'
  unfolding extract_ip real_ip
  extract_ip-forged c r r' forged forged' genuine sent sent' le peer real =
      rw
        (
          forwarded_ip-append c r forged genuine sent le,
          forwarded_ip-append c r' forged' genuine sent' le,
          peer,
          real,
        )
        refl
