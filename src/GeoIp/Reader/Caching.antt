-- ===== src/GeoIp/Reader/Caching.antt =====
-- The lookups of pkg/maxmind/reader.go with their caches against lookups without a cache.
use mathlib.Core.Path.{ap₂}
use insight_collector.Prelude.{
  ℕ, String, Bool, true, false, Option, none, some, List, [], ◌∷◌, ltb, ◌≡◌, refl, Bool-cases,
  Option-cases, inl, inr, ◌∙◌, ap, sym, arith,
}
use insight_collector.GeoIp.{
  GeoLocation, AsnInfo, CityReader, AsnReader, CacheEntry, Lru, Times, perform_city_db_lookup,
  perform_asn_db_lookup, cached, cache_result, lookup, purged,
}
use insight_collector.GeoIp.Reader.{
  Files, GeoReader, lookup_city, lookup_asn, load_databases, needs_reload, check_tick,
  reload_databases, new_safe_geo_ip_reader,
}

module _ {C V : Type 0} (lru : Lru C (CacheEntry V)) (erase : V → V) (place : String → V) where
  -- What a cache holds is right but for its time.
  abbrev pub Agrees : Option C → Type 0
  Agrees none = Unit
  Agrees (some c) =
      (ip : String) (e : CacheEntry V) → (lru.get ip c).0 ≡ some e → erase e.data_of ≡ place ip

  purged-Agrees : (cache : Option C) → Agrees (purged lru cache)
  purged-Agrees none = tt
  purged-Agrees (some c) = λ ip e held. absurd (ground (arith, lru.get-purge ip c))

  Agrees-get : (ip : String) (c : C) → Agrees (some c) → Agrees (some ((lru.get ip c).1))
  Agrees-get ip c agrees = λ ip' e held. agrees ip' e (sym (lru.get-get ip ip' c) ∙ held)

  Agrees-add :
      (ip : String) (e : CacheEntry V) (c : C)
      → erase e.data_of ≡ place ip
      → Agrees (some c)
      → Agrees (some (lru.add ip e c))
  Agrees-add ip e c right agrees = λ ip' e' held. elim (lru.get-add ip ip' e e' c held) [
    | inl (same, is) ↦ ap (λ x. erase x.data_of) (sym is) ∙ right ∙ ap place same
    | inr before ↦ agrees ip' e' before
  ]

  module _ (ttl : ℕ) (t : Times) (perform : String → V)
      (right : (ip : String) → erase (perform ip) ≡ place ip) where
    -- A lookup answers as the database does, but for the time, and keeps the cache right.
    lookup-Agrees :
        (ip : String) (cache : Option C)
        → Agrees cache
        → (erase ((lookup lru ttl t perform ip cache).0) ≡ place ip)
          × Agrees ((lookup lru ttl t perform ip cache).1)
    unfolding lookup cached cache_result
    lookup-Agrees ip none agrees = (right ip, tt)
    lookup-Agrees ip (some c) agrees = elim (Option-cases ((lru.get ip c).0)) [
      | inl nothing ↦
          rw (lookup, nothing) (right ip, Agrees-add ip _ _ (right ip) (Agrees-get ip c agrees))
      | inr (e, held) ↦ elim (Bool-cases (ltb e.expires_at t.checked)) [
        | inl expired ↦
            rw (lookup, held, expired)
              (right ip, Agrees-add ip _ _ (right ip) (Agrees-get ip c agrees))
        | inr valid ↦ rw (lookup, held, valid) (agrees ip e held, Agrees-get ip c agrees)
      ]
    ]

abbrev pub timeless_city : GeoLocation → GeoLocation
timeless_city l = record l { looked_up_at = 0 }

abbrev pub timeless_asn : AsnInfo → AsnInfo
timeless_asn a = record a { looked_up_at = 0 }

abbrev no_times : Times
no_times = record { checked = 0; started = 0; looked_up = 0; stored = 0 }

module _ {Addr : Type 0} (parse_addr : String → Option Addr) where
  abbrev place_city : Option (CityReader Addr) → String → GeoLocation
  place_city reader ip = timeless_city (perform_city_db_lookup parse_addr reader no_times ip)

  abbrev place_asn : Option (AsnReader Addr) → String → AsnInfo
  place_asn reader ip = timeless_asn (perform_asn_db_lookup parse_addr reader no_times ip)

  perform_city_timeless :
      (reader : Option (CityReader Addr)) (t : Times) (ip : String)
      → timeless_city (perform_city_db_lookup parse_addr reader t ip) ≡ place_city reader ip
  unfolding perform_city_db_lookup
  perform_city_timeless none t ip = refl
  perform_city_timeless (some find) t ip = elim (Option-cases (parse_addr ip)) [
    | inl bad ↦ rw (perform_city_db_lookup, bad) refl
    | inr (addr, parsed) ↦ elim (Option-cases (find addr)) [
      | inl unknown ↦ rw (perform_city_db_lookup, parsed, unknown) refl
      | inr (r, found) ↦ rw (perform_city_db_lookup, parsed, found) refl
    ]
  ]

  perform_asn_timeless :
      (reader : Option (AsnReader Addr)) (t : Times) (ip : String)
      → timeless_asn (perform_asn_db_lookup parse_addr reader t ip) ≡ place_asn reader ip
  unfolding perform_asn_db_lookup
  perform_asn_timeless none t ip = refl
  perform_asn_timeless (some find) t ip = elim (Option-cases (parse_addr ip)) [
    | inl bad ↦ rw (perform_asn_db_lookup, bad) refl
    | inr (addr, parsed) ↦ elim (Option-cases (find addr)) [
      | inl unknown ↦ rw (perform_asn_db_lookup, parsed, unknown) refl
      | inr (r, found) ↦ rw (perform_asn_db_lookup, parsed, found) refl
    ]
  ]

-- What the service does with its reader
pub data Op (Addr : Type 0) : Type 0 where
  look_city look_asn : Times → String → Op Addr
  tick reload : Files Addr → ℕ → Op Addr

pub data Answer : Type 0 where
  city_answer : GeoLocation → Answer
  asn_answer : AsnInfo → Answer

abbrev pub timeless : Answer → Answer
timeless (city_answer l) = city_answer (timeless_city l)
timeless (asn_answer a) = asn_answer (timeless_asn a)

module _ {Addr CityCache AsnCache : Type 0} (parse_addr : String → Option Addr)
    (city_lru : Lru CityCache (CacheEntry GeoLocation))
    (asn_lru : Lru AsnCache (CacheEntry AsnInfo)) where
  -- The answers of a run of operations, but for their times
  abbrev pub run : List (Op Addr) → GeoReader Addr CityCache AsnCache → List Answer
  run [] r = []
  run (look_city t ip ∷ ops) r =
      let found = lookup_city parse_addr city_lru asn_lru t ip r in
      timeless (city_answer (found.0)) ∷ run ops (found.1)
  run (look_asn t ip ∷ ops) r =
      let found = lookup_asn parse_addr city_lru asn_lru t ip r in
      timeless (asn_answer (found.0)) ∷ run ops (found.1)
  run (tick files now ∷ ops) r = run ops (check_tick parse_addr city_lru asn_lru files now r)
  run (reload files now ∷ ops) r =
      run ops (reload_databases parse_addr city_lru asn_lru files now r)

  abbrev pub without_caches : GeoReader Addr CityCache AsnCache → GeoReader Addr CityCache AsnCache
  without_caches r = record r { city_cache = none; asn_cache = none }

  abbrev IsRight : GeoReader Addr CityCache AsnCache → Type 0
  IsRight r =
      Agrees city_lru timeless_city (place_city parse_addr r.city_reader) r.city_cache
      × Agrees asn_lru timeless_asn (place_asn parse_addr r.asn_reader) r.asn_cache

  load_databases-IsRight :
      (files : Files Addr) (now : ℕ) (r : GeoReader Addr CityCache AsnCache)
      → IsRight (load_databases parse_addr city_lru asn_lru files now r)
  unfolding load_databases
  load_databases-IsRight files now r = (
    purged-Agrees city_lru timeless_city _ r.city_cache,
    purged-Agrees asn_lru timeless_asn _ r.asn_cache,
  )

  lookup_city-IsRight :
      (t : Times) (ip : String) (r : GeoReader Addr CityCache AsnCache)
      → IsRight r
      → let found = lookup_city parse_addr city_lru asn_lru t ip r in
        let plain = lookup_city parse_addr city_lru asn_lru t ip (without_caches r) in
        (timeless_city (found.0) ≡ timeless_city (plain.0))
        × (without_caches (found.1) ≡ plain.1)
        × IsRight (found.1)
  unfolding lookup_city lookup cached cache_result
  lookup_city-IsRight t ip r right =
      let place = place_city parse_addr r.city_reader in
      let timeless = perform_city_timeless parse_addr r.city_reader t in
      let found =
        lookup-Agrees city_lru timeless_city place r.cache_ttl t
          (perform_city_db_lookup parse_addr r.city_reader t) timeless ip r.city_cache right.0 in
      elim (Bool-cases r.enabled) [
        | inr off ↦ rw (lookup_city, off) (refl, refl, right)
        | inl on ↦ rw (lookup_city, on) (found.0 ∙ sym (timeless ip), refl, (found.1, right.1))
      ]

  lookup_asn-IsRight :
      (t : Times) (ip : String) (r : GeoReader Addr CityCache AsnCache)
      → IsRight r
      → let found = lookup_asn parse_addr city_lru asn_lru t ip r in
        let plain = lookup_asn parse_addr city_lru asn_lru t ip (without_caches r) in
        (timeless_asn (found.0) ≡ timeless_asn (plain.0))
        × (without_caches (found.1) ≡ plain.1)
        × IsRight (found.1)
  unfolding lookup_asn lookup cached cache_result
  lookup_asn-IsRight t ip r right =
      let place = place_asn parse_addr r.asn_reader in
      let timeless = perform_asn_timeless parse_addr r.asn_reader t in
      let found =
        lookup-Agrees asn_lru timeless_asn place r.cache_ttl t
          (perform_asn_db_lookup parse_addr r.asn_reader t) timeless ip r.asn_cache right.1 in
      elim (Bool-cases r.enabled) [
        | inr off ↦ rw (lookup_asn, off) (refl, refl, right)
        | inl on ↦ rw (lookup_asn, on) (found.0 ∙ sym (timeless ip), refl, (right.0, found.1))
      ]

  check_tick-IsRight :
      (files : Files Addr) (now : ℕ) (r : GeoReader Addr CityCache AsnCache)
      → IsRight r
      → (without_caches (check_tick parse_addr city_lru asn_lru files now r)
          ≡ check_tick parse_addr city_lru asn_lru files now (without_caches r))
        × IsRight (check_tick parse_addr city_lru asn_lru files now r)
  unfolding check_tick needs_reload load_databases
  check_tick-IsRight files now r right =
      elim (Bool-cases (needs_reload parse_addr city_lru asn_lru files r)) [
        | inl changed ↦
            rw (check_tick, needs_reload, changed) (refl, load_databases-IsRight files now r)
        | inr same ↦ rw (check_tick, needs_reload, same) (refl, right)
      ]

  reload_databases-IsRight :
      (files : Files Addr) (now : ℕ) (r : GeoReader Addr CityCache AsnCache)
      → IsRight r
      → (without_caches (reload_databases parse_addr city_lru asn_lru files now r)
          ≡ reload_databases parse_addr city_lru asn_lru files now (without_caches r))
        × IsRight (reload_databases parse_addr city_lru asn_lru files now r)
  unfolding reload_databases load_databases
  reload_databases-IsRight files now r right = elim (Bool-cases r.enabled) [
    | inl on ↦ rw (reload_databases, on) (refl, load_databases-IsRight files now r)
    | inr off ↦ rw (reload_databases, off) (refl, right)
  ]

  run-IsRight :
      (ops : List (Op Addr)) (r : GeoReader Addr CityCache AsnCache)
      → IsRight r
      → run ops r ≡ run ops (without_caches r)
  run-IsRight [] r right = refl
  run-IsRight (look_city t ip ∷ ops) r right =
      let step = lookup_city-IsRight t ip r right in
      ap₂ (λ l answers. city_answer l ∷ answers) step.0
        (run-IsRight ops _ step.2 ∙ ap (λ s. run ops s) step.1)
  run-IsRight (look_asn t ip ∷ ops) r right =
      let step = lookup_asn-IsRight t ip r right in
      ap₂ (λ a answers. asn_answer a ∷ answers) step.0
        (run-IsRight ops _ step.2 ∙ ap (λ s. run ops s) step.1)
  run-IsRight (tick files now ∷ ops) r right =
      let step = check_tick-IsRight files now r right in
      run-IsRight ops _ step.1 ∙ ap (λ s. run ops s) step.0
  run-IsRight (reload files now ∷ ops) r right =
      let step = reload_databases-IsRight files now r right in
      run-IsRight ops _ step.1 ∙ ap (λ s. run ops s) step.0

  -- A reader that is made from any configuration and files gives, through any run of lookups, ticks
  -- of the periodic checker and reloads, each a step of its own, the answers of the same reader
  -- without its caches, but for the times of the answers.
  pub run-without_caches :
      (enabled caching : Bool) (ttl : Option ℕ) (city : Option CityCache) (asn : Option AsnCache)
      (files : Files Addr) (now : ℕ) (ops : List (Op Addr))
      → let r =
          new_safe_geo_ip_reader parse_addr city_lru asn_lru enabled caching ttl city asn files
            now in
        run ops r ≡ run ops (without_caches r)
  unfolding new_safe_geo_ip_reader
  run-without_caches true caching ttl city asn files now ops =
      run-IsRight ops _ (load_databases-IsRight files now _)
  run-without_caches false caching ttl city asn files now ops = run-IsRight ops _ (tt, tt)
