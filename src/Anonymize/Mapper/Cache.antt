-- ===== src/Anonymize/Mapper/Cache.antt =====
-- AddressMapper with its caches, against the stand-ins without any.
use pcap_server.Prelude.{
  ◌≡◌, refl, sym, ap, subst, List, [], ◌∷◌, ◌++◌, Option, none, some, Bytes, ltb, length, take,
  drop, bytes_eq, bytes_eq→eq, if◌then◌else◌, Dict, lookup, store, lookup-store_same,
  lookup-store_other, Bool-cases, inl, inr,
}
use pcap_server.Anonymize.{Primitives}
use pcap_server.Anonymize.Mapper.{
  MapperConfig, AddressMapper, cache_limit, remember, map_ipv4, mapper_ipv4, map_ipv6_native,
  map_ipv6, mapper_ipv6, map_mac, mapper_mac, ipv4_mapped_prefix,
}

-- A question to the mapper.
pub data Address : Type 0 where
  ipv4 ipv6 mac : Bytes → Address

unfoldable pub ask : Primitives → AddressMapper → Address → Bytes × AddressMapper
ask p s (ipv4 raw) = mapper_ipv4 p s raw
ask p s (ipv6 raw) = mapper_ipv6 p s raw
ask p s (mac raw) = mapper_mac p s raw

unfoldable pub ask_all : Primitives → AddressMapper → List Address → AddressMapper
ask_all p s [] = s
ask_all p s (a ∷ rest) = ask_all p (ask p s a).1 rest

-- The stand-in of an IPv6 address without caches.
unfoldable pub plain_ipv6 : Primitives → MapperConfig → Bytes → Bytes
plain_ipv6 p c raw =
    if bytes_eq (take 12 raw) ipv4_mapped_prefix
    then take 12 raw ++ map_ipv4 p c (drop 12 raw)
    else map_ipv6_native p c raw

unfoldable pub plain : Primitives → MapperConfig → Address → Bytes
plain p c (ipv4 raw) = map_ipv4 p c raw
plain p c (ipv6 raw) = plain_ipv6 p c raw
plain p c (mac raw) = map_mac p c raw

abbrev pub fresh_mapper : MapperConfig → AddressMapper
fresh_mapper c = record { config = c; ipv4_cache = []; ipv6_cache = []; mac_cache = [] }

-- Each entry of a cache is what `f` gives.
abbrev Caches : (Bytes → Bytes) → Dict Bytes → Type 0
Caches f cache = (raw v : Bytes) → lookup cache raw ≡ some v → v ≡ f raw

Caches-remember :
    (f : Bytes → Bytes) (cache : Dict Bytes) (raw : Bytes)
    → Caches f cache
    → Caches f (remember cache raw (f raw))
unfolding remember
Caches-remember f cache raw h other v found = elim (Bool-cases (ltb (length cache) cache_limit)) [
  | inr full ↦ h other v (rw full at found)
  | inl room ↦ elim (Bool-cases (bytes_eq other raw)) [
    | inl same ↦
        let e = bytes_eq→eq other raw same in
        let stored : lookup (store cache raw (f raw)) other ≡ some (f raw) =
          subst (λ k. lookup (store cache raw (f raw)) k ≡ some (f raw)) (sym e)
            (lookup-store_same cache raw (f raw)) in
        cc (rw room at found, stored, ap f e)
    | inr apart ↦
        h other v (cc (rw room at found, lookup-store_other cache raw other (f raw) apart))
  ]
]

module _ (p : Primitives) (c : MapperConfig) where
  -- The configuration stays, and every cache holds stand-ins.
  pub record IsCoherent (s : AddressMapper) : Type 0 where
    pub same_config : s.config ≡ c
    pub ipv4_caches : Caches (map_ipv4 p c) s.ipv4_cache
    pub ipv6_caches : Caches (plain_ipv6 p c) s.ipv6_cache
    pub mac_caches : Caches (map_mac p c) s.mac_cache

  -- An answer is right, and leaves a coherent mapper.
  abbrev pub Answers : Bytes → Bytes × AddressMapper → Type 0
  Answers v r = (r.0 ≡ v) × IsCoherent r.1

  Answers-option :
      (v : Bytes) (o : Option Bytes) {x : Bytes × AddressMapper} {y : Bytes → Bytes × AddressMapper}
      → (o ≡ none → Answers v x)
      → ((a : Bytes) → o ≡ some a → Answers v (y a))
      → Answers v (elim o [ none ↦ x | some a ↦ y a ])
  Answers-option v none hx hy = hx refl
  Answers-option v (some a) hx hy = hy a refl

  pub mapper_ipv4-IsCoherent :
      (s : AddressMapper) (raw : Bytes)
      → IsCoherent s
      → Answers (map_ipv4 p c raw) (mapper_ipv4 p s raw)
  unfolding mapper_ipv4
  mapper_ipv4-IsCoherent s raw h =
      let e = ap (λ d. map_ipv4 p d raw) h.same_config in
      Answers-option (map_ipv4 p c raw) (lookup s.ipv4_cache raw)
        (λ _. (
          e,
          record {
            same_config = h.same_config;
            ipv4_caches =
                subst (λ v. Caches (map_ipv4 p c) (remember s.ipv4_cache raw v)) (sym e)
                  (Caches-remember (map_ipv4 p c) s.ipv4_cache raw h.ipv4_caches);
            ipv6_caches = h.ipv6_caches;
            mac_caches = h.mac_caches;
          },
        ))
        (λ v found. (h.ipv4_caches raw v found, h))

  pub mapper_mac-IsCoherent :
      (s : AddressMapper) (raw : Bytes)
      → IsCoherent s
      → Answers (map_mac p c raw) (mapper_mac p s raw)
  unfolding mapper_mac
  mapper_mac-IsCoherent s raw h =
      let e = ap (λ d. map_mac p d raw) h.same_config in
      Answers-option (map_mac p c raw) (lookup s.mac_cache raw)
        (λ _. (
          e,
          record {
            same_config = h.same_config;
            mac_caches =
                subst (λ v. Caches (map_mac p c) (remember s.mac_cache raw v)) (sym e)
                  (Caches-remember (map_mac p c) s.mac_cache raw h.mac_caches);
            ipv4_caches = h.ipv4_caches;
            ipv6_caches = h.ipv6_caches;
          },
        ))
        (λ v found. (h.mac_caches raw v found, h))

  map_ipv6-IsCoherent :
      (s : AddressMapper) (raw : Bytes)
      → IsCoherent s
      → Answers (plain_ipv6 p c raw) (map_ipv6 p s raw)
  unfolding map_ipv6 plain_ipv6
  map_ipv6-IsCoherent s raw h = elim (Bool-cases (bytes_eq (take 12 raw) ipv4_mapped_prefix)) [
    | inl mapped ↦
        let inner = mapper_ipv4-IsCoherent s (drop 12 raw) h in
        rw mapped (ap (λ v. take 12 raw ++ v) inner.0, inner.1)
    | inr other ↦ rw other (ap (λ d. map_ipv6_native p d raw) h.same_config, h)
  ]

  pub mapper_ipv6-IsCoherent :
      (s : AddressMapper) (raw : Bytes)
      → IsCoherent s
      → Answers (plain_ipv6 p c raw) (mapper_ipv6 p s raw)
  unfolding mapper_ipv6
  mapper_ipv6-IsCoherent s raw h =
      let inner = map_ipv6-IsCoherent s raw h in
      Answers-option (plain_ipv6 p c raw) (lookup s.ipv6_cache raw)
        (λ _. (
          inner.0,
          record {
            same_config = inner.1.same_config;
            ipv4_caches = inner.1.ipv4_caches;
            ipv6_caches =
                subst
                  (λ v. Caches (plain_ipv6 p c) (remember (map_ipv6 p s raw).1.ipv6_cache raw v))
                  (sym inner.0)
                  (Caches-remember (plain_ipv6 p c) (map_ipv6 p s raw).1.ipv6_cache raw
                    inner.1.ipv6_caches);
            mac_caches = inner.1.mac_caches;
          },
        ))
        (λ v found. (h.ipv6_caches raw v found, h))

  ask-IsCoherent :
      (s : AddressMapper) (a : Address) → IsCoherent s → Answers (plain p c a) (ask p s a)
  unfolding ask plain
  ask-IsCoherent s (ipv4 raw) h = mapper_ipv4-IsCoherent s raw h
  ask-IsCoherent s (ipv6 raw) h = mapper_ipv6-IsCoherent s raw h
  ask-IsCoherent s (mac raw) h = mapper_mac-IsCoherent s raw h

  ask_all-IsCoherent :
      (s : AddressMapper) (before : List Address) → IsCoherent s → IsCoherent (ask_all p s before)
  unfolding ask_all
  ask_all-IsCoherent s [] h = h
  ask_all-IsCoherent s (a ∷ rest) h = ask_all-IsCoherent (ask p s a).1 rest (ask-IsCoherent s a h).1

  pub fresh-IsCoherent : IsCoherent (fresh_mapper c)
  fresh-IsCoherent = record {
    same_config = refl;
    ipv4_caches = λ raw v h. cc h;
    ipv6_caches = λ raw v h. cc h;
    mac_caches = λ raw v h. cc h;
  }

  -- Whatever was asked before, in whatever order, and however full the caches are, the mapper
  -- answers as it would without a cache: the same address has the same stand-in throughout.
  pub ask-ask_all :
      (before : List Address) (a : Address)
      → (ask p (ask_all p (fresh_mapper c) before) a).0 ≡ plain p c a
  ask-ask_all before a =
      (ask-IsCoherent (ask_all p (fresh_mapper c) before) a
        (ask_all-IsCoherent (fresh_mapper c) before fresh-IsCoherent)).0
