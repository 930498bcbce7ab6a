-- ===== src/ObjEnv/Growth.antt =====
-- objenv.c: growing an environment keeps its entries.
use mudlle.Prelude.{
  ℕ, zero, suc, ◌+◌, ◌*◌, ◌^◌, ◌>>=◌, ◌⊎◌, none, dec_lt, ◌≤◌, ◌<◌, ◌≡◌, refl, ap, ◌∙◌, true, some,
  List, [], ◌∷◌, ◌++◌, arith, ltb, leb, if◌then◌else◌, length, set, take, length-set, Bool-cases,
  lt→ltb, leb→le, inl, inr,
}
use mudlle.Alloc.{max_vector_size}
use mudlle.ObjEnv.Reserve.{IsValid, entries, Reserved, TooLarge, env_reserve-Reserved}
use mudlle.ObjEnv.{ObjEnv, env_grow_and_add_entry, env_make_room, env_add_entry}

module _ {V : Type 0} where
  take-set_end :
      (a : List V) (n : ℕ) (v : V) → n < length a → take (suc n) (set a n v) ≡ take n a ++ v ∷ []
  take-set_end [] n v h = absurd (omega arith)
  take-set_end (x ∷ a) zero v h = refl
  take-set_end (x ∷ a) (suc n) v h = ap (λ r. x ∷ r) (take-set_end a n v (omega arith))

  module _ (null : V) where
    -- An entry was added to `env`: the vector either was large enough or is more than twice as
    -- large.
    pub record Added (env : ObjEnv V) (v : V) (r : ObjEnv V) : Type 0 where
      pub used : r.used ≡ env.used + 1
      pub valid : IsValid r
      pub kept : entries r ≡ entries env ++ v ∷ []
      pub size : length r.values ≡ (
          if ltb env.used (length env.values) then length env.values else 2 * length env.values + 1)

    -- Room was made for n entries.
    pub record Roomy (env : ObjEnv V) (n : ℕ) (r : ObjEnv V) : Type 0 where
      pub used : r.used ≡ env.used + n
      pub valid : IsValid r
      pub front : take env.used r.values ≡ entries env

    stored-Added :
        (env : ObjEnv V) (v : V)
        → IsValid env
        → env.used < length env.values
        → Added env v (record { used = env.used + 1; values = set env.values env.used v })
    stored-Added env v valid room =
        let next : env.used + 1 ≡ suc env.used = omega arith in
        record {
          used = refl;
          valid = rw length-set (omega arith);
          kept = rw next (take-set_end env.values env.used v room);
          size = rw length-set (ground arith);
        }

    grown-Added :
        (env : ObjEnv V) (v : V) (big : ObjEnv V)
        → IsValid env
        → length env.values ≤ env.used
        → Reserved null env 1 big
        → Added env v (record { used = big.used + 1; values = set big.values env.used v })
    grown-Added env v big valid full' reserved =
        let next : env.used + 1 ≡ suc env.used = omega arith in
        let here : env.used < length big.values = omega (arith, reserved.room) in
        let same = reserved.used in
        record {
          used = ap (λ k. k + 1) same;
          valid = rw length-set (omega arith);
          kept =
              rw (same, next)
                (take-set_end big.values env.used v here
                  ∙ ap (λ t. t ++ v ∷ []) (rw same at reserved.kept));
          size = rw length-set (reserved.size ∙ (ground arith));
        }

    env_add_entry-add :
        (env : ObjEnv V) (v : V)
        → IsValid env
        → length env.values ≤ max_vector_size
        → ((r : ObjEnv V) × (env_add_entry null env v ≡ some (env.used, r)) × Added env v r)
          ⊎ ((env_add_entry null env v ≡ none) × TooLarge null env 1)
    unfolding env_add_entry env_grow_and_add_entry
    env_add_entry-add env v valid small = elim (Bool-cases (leb (length env.values) env.used)) [
      | inr e ↦ inl (
        record { used = env.used + 1; values = set env.values env.used v },
        rw e refl,
        stored-Added env v valid (ground arith),
      )
      | inl e ↦ elim (env_reserve-Reserved null env 1 valid small (omega arith)) [
        | inr (fails, large) ↦ inr (rw (e, fails) refl, large)
        | inl (big, runs, reserved) ↦
            let here : ltb env.used (length big.values) ≡ true =
              lt→ltb env.used (length big.values) (omega (arith, reserved.room)) in
            inl (
              record { used = big.used + 1; values = set big.values env.used v },
              rw (e, runs, ◌>>=◌, here) refl,
              grown-Added env v big valid (leb→le (length env.values) env.used e) reserved,
            )
      ]
    ]

    -- There is a place for one more entry, or the vector may grow.
    abbrev pub CanAdd : ObjEnv V → Type 0
    CanAdd env =
        (length env.values ≤ max_vector_size)
        × (length env.values ≤ env.used → 2 * length env.values + 1 ≤ max_vector_size)

    pub env_add_entry-CanAdd :
        (env : ObjEnv V) (v : V)
        → IsValid env
        → CanAdd env
        → (r : ObjEnv V) × (env_add_entry null env v ≡ some (env.used, r))
          × Added env v r
          × (length r.values ≤ max_vector_size)
    env_add_entry-CanAdd env v valid (small, grows) = elim (env_add_entry-add env v valid small) [
      | inr (fails, (full', large)) ↦ absurd (let fits = grows (omega arith) in omega arith)
      | inl (r, runs, a) ↦ (
        r,
        runs,
        a,
        elim (dec_lt env.used (length env.values)) [
          | yes room ↦
              let same : ltb env.used (length env.values) ≡ true =
                lt→ltb env.used (length env.values) room in
              let size = rw same at a.size in omega arith
          | no full' ↦ let fits = grows (omega arith) in let size = a.size in ground arith
        ],
      )
    ]

    -- For a valid environment whose vector is no longer than the largest one: adding an entry never
    -- writes outside the vector and returns the index of the new entry, which comes after the old
    -- ones; a full vector of n values is replaced by one of 2 n + 1. Making room for n entries,
    -- fewer than 2 ^ 59, keeps the old ones in front. Each fails exactly when the vector is too
    -- short and the new one would be larger than the largest one.
    pub env_add_entry-Added :
        (env : ObjEnv V) (v : V) (n : ℕ)
        → IsValid env
        → length env.values ≤ max_vector_size
        → n < 2 ^ 59
        → (((r : ObjEnv V) × (env_add_entry null env v ≡ some (env.used, r)) × Added env v r)
            ⊎ ((env_add_entry null env v ≡ none) × TooLarge null env 1))
          × (((r : ObjEnv V) × (env_make_room null env n ≡ some r) × Roomy env n r)
              ⊎ ((env_make_room null env n ≡ none) × TooLarge null env n))
    unfolding env_make_room
    env_add_entry-Added env v n valid small few = (
      env_add_entry-add env v valid small,
      elim (env_reserve-Reserved null env n valid small few) [
        | inr (fails, large) ↦ inr (rw fails refl, large)
        | inl (r, runs, reserved) ↦ inl (
          record r { used = r.used + n },
          rw (runs, ◌>>=◌) refl,
          record {
            used = ap (λ k. k + n) reserved.used;
            valid = omega (arith, reserved.room, reserved.used);
            front = rw (reserved.used) at (reserved.kept);
          },
        )
      ],
    )
