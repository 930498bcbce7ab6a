-- ===== src/Assoc/Lookup.antt =====
-- assoc.c: what a lookup gives after each operation that changes an array.
use mudlle.Prelude.{◌<◌, ◌≡◌, Option, some, none, arith, if◌then◌else◌, ◌>>=◌}
use mudlle.Assoc.{
  AssocType, AssocArray, assoc_array_lookup_ref, assoc_array_force_ref, assoc_array_set,
  assoc_array_remove,
}
use mudlle.Assoc.Buckets.{IsLawful}
use mudlle.Assoc.Map.{
  is_some, or_null, reads_alike, assoc_array_set-Models, assoc_array_remove-Models,
  assoc_array_lookup_ref-Models, assoc_array_force_ref-Models,
}
use mudlle.Assoc.Reach.{Reach, Reach-IsValid}

module _ {K : Type 0} (type : AssocType K) (law : IsLawful type) {V : Type 0} (null : V) where
  abbrev pub then_lookup : {R : Type 0} → Option (R × AssocArray K V) → K → Option (Option V)
  then_lookup run q = run >>= λ r. assoc_array_lookup_ref type r.1 q

  -- What the calls on an array do to the lookup of `q`, which gave `o` before.
  pub record LookupAfter (a : AssocArray K V) (k q : K) (v : V) (o : Option V) : Type 0 where
    pub before : assoc_array_lookup_ref type a q ≡ some o
    pub after_set :
        then_lookup (assoc_array_set type a k v) q ≡ some (if type.is_equal q k then some v else o)
    pub after_force :
        then_lookup (assoc_array_force_ref type null a k) q
        ≡ some (if type.is_equal q k then some (or_null null o) else o)
    pub after_remove :
        (assoc_array_remove type a k >>= λ r. assoc_array_lookup_ref type r.2 q)
        ≡ some (if type.is_equal q k then none else o)
    pub was_found : (assoc_array_remove type a q >>= λ r. some r.0) ≡ some (is_some o)

  -- For an array that calls from an empty one gave, with fewer than 2^63 buckets: no call fails an
  -- assertion; a lookup after set finds the new data under the equal keys, after force_ref the old
  -- data or NULL, after remove nothing, and what it found before under every other key; remove
  -- tells whether the key was there.
  pub lookup-LookupAfter :
      {a : AssocArray K V}
      → Reach type law null a
      → a.size_bits < 63
      → (k q : K) (v : V) → (o : Option V) × LookupAfter a k q v o
  lookup-LookupAfter {a} reach narrow k q v =
      let valid = Reach-IsValid type law null reach in
      let f = valid.meaning in
      let m = valid.models in
      let (b, run, mb) = assoc_array_set-Models type law f a m k v narrow in
      let (c, run', mc) = assoc_array_force_ref-Models type law f a m k null narrow in
      let (o, d, run'', value, md, _) = assoc_array_remove-Models type law f a m k in
      let (o', d', run3, value', _, _) = assoc_array_remove-Models type law f a m q in
      (
        f q,
        record {
          before = assoc_array_lookup_ref-Models type law f a m q;
          after_set = rw (run, assoc_array_lookup_ref-Models type law _ b mb q);
          after_force =
              rw (run', assoc_array_lookup_ref-Models type law _ c mc q)
                (ground (arith, reads_alike type law f a m k q));
          after_remove = rw (run'', assoc_array_lookup_ref-Models type law _ d md q);
          was_found = rw run3 (ground (arith, value'));
        },
      )
