-- ===== src/Table/Access/Rehash.antt =====
-- `rehash_table` of table.c.
use mudlle.Prelude.{
  ℕ, ◌<◌, ◌≡◌, ◌↔◌, refl, inl, inr, List, Bool, false, none, some, arith, length, replicate, sym,
  ◌∙◌, ==_iff, ◌>>=◌, length-replicate,
}
use mudlle.Table.{Symbol, Table, get_methods, is_ctable, table_entries, table_lookup_len}
use mudlle.Table.Probe.Placed.{Holds}
use mudlle.Table.Valid.{IsValid}
use mudlle.Table.Lookup.{table_lookup_len_iff, same_cell}
use mudlle.Table.Grow.{threshold}
use mudlle.Table.Add.{empty-IsValid, nothing-held}
use mudlle.Table.ReAdd.{re_add-Adds}
use mudlle.Table.Map.{lookup_by}
use mudlle.Table.Access.{rehash_table}

module _ {V : Type 0} where
  abbrev cleared : Table V → Table V
  cleared t = record t {
    buckets = replicate (length t.buckets) none;
    used = (get_methods t).make_used 0;
    readonly = false;
    buckets_readonly = false;
  }

  cleared_kind :
      (t : Table V) → (is_ctable (cleared t) ≡ is_ctable t) × (table_entries (cleared t) ≡ 0)
  unfolding get_methods
  cleared_kind t = ground arith

  flags-IsValid :
      (u : Table V) (a b : Bool)
      → IsValid u
      → IsValid (record u { readonly = a; buckets_readonly = b })
  unfolding get_methods
  flags-IsValid u a b v = record {
    bits = v.bits;
    bits_lt = v.bits_lt;
    size = v.size;
    placed = v.placed;
    counted = v.counted;
    room = v.room;
    names = v.names;
  }

  same_lookups :
      (t u : Table V)
      → IsValid t
      → IsValid u
      → is_ctable u ≡ is_ctable t
      → ((s : Symbol V) → Holds u.buckets s ↔ Holds t.buckets s)
      → (name : List ℕ) → table_lookup_len u name ≡ table_lookup_len t name
  same_lookups t u v uv kind h name =
      let (r, ran, iff) = table_lookup_len_iff t v name in
      lookup_by u uv name r (λ s. (
        λ q. (let k = (iff s).0 q in ((h s).1 k.0, rw kind k.1)),
        λ k. (iff s).1 ((h s).0 k.0, rw kind at (k.1)),
      ))
      ∙ sym ran

  -- Rehashing a table below its threshold, read-only or not, ends without a failed assertion: the
  -- table keeps its size, its count and its flags, is in order, and answers every lookup as before.
  pub rehash_table-lookup :
      (t : Table V)
      → IsValid t
      → table_entries t < threshold t
      → (u : Table V) × (rehash_table t ≡ some u)
        × IsValid u
        × (length u.buckets ≡ length t.buckets)
        × (table_entries u ≡ table_entries t)
        × (u.readonly ≡ t.readonly)
        × (u.buckets_readonly ≡ t.buckets_readonly)
        × ((name : List ℕ) → table_lookup_len u name ≡ table_lookup_len t name)
  unfolding rehash_table
  rehash_table-lookup t v lt =
      let d = cleared_kind t in
      let (r, ran, a, l) =
        re_add-Adds 2 t.buckets (cleared t) (length t.buckets)
          (empty-IsValid (cleared t) v.bits (length t.buckets) v.bits_lt v.size refl d.1)
          (refl, refl) (length-replicate _ _)
          (λ i j s u es eu e. same_cell t v i j s u es eu (rw d.0 at e)) v.names
          (λ s u hs hu. absurd (nothing-held _ u hu)) (omega (arith, d.1, v.counted)) in
      let n : table_entries r ≡ table_entries t = omega (arith, a.entries, d.1, v.counted) in
      let u = record r { readonly = t.readonly; buckets_readonly = t.buckets_readonly } in
      let uv = flags-IsValid r t.readonly t.buckets_readonly a.valid in
      (
        u,
        rw (ran, ◌>>=◌, (==_iff _ _).1 l, (==_iff _ _).1 n),
        uv,
        l,
        n,
        refl,
        refl,
        same_lookups t u v uv (a.kind ∙ d.0) (λ s. (
          λ h. elim ((a.holds s).0 h) [ inl x ↦ absurd (nothing-held _ s x) | inr x ↦ x ],
          λ h. (a.holds s).1 (inr h),
        )),
      )
