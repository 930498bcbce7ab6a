-- ===== src/ObjEnv/Reserve.antt =====
-- objenv.c: making room in an environment keeps its entries.
use mudlle.Prelude.{
  ℕ, zero, suc, ◌+◌, ◌*◌, ◌%◌, ◌^◌, ◌>>=◌, ◌⊎◌, none, ltb→lt, dec_lt, ◌≤◌, ◌<◌, min, ◌≡◌, refl, ap,
  ◌∙◌, true, some, List, [], ◌∷◌, ◌++◌, arith, ltb, if◌then◌else◌, length, take, drop, replicate,
  get_elem?, length-append, length-take, length-drop, length-replicate, Bool-cases, inl, inr,
}
use mudlle.Alloc.{alloc_vector, max_vector_size, alloc_vector-fits, alloc_vector-none}
use mudlle.ObjEnv.{ObjEnv, memcpy, env_reserve}

module _ {V : Type 0} where
  abbrev pub IsValid : ObjEnv V → Type 0
  IsValid env = env.used ≤ length env.values

  -- The entries in use.
  abbrev pub entries : ObjEnv V → List V
  entries env = take env.used env.values

  take-take_append :
      (n m : ℕ) (a b : List V) → n ≤ min m (length a) → take n (take m a ++ b) ≡ take n a
  take-take_append zero m a b h = refl
  take-take_append (suc n) zero a b h = absurd (omega arith)
  take-take_append (suc n) (suc m) [] b h = absurd (omega arith)
  take-take_append (suc n) (suc m) (x ∷ a) b h =
      ap (λ r. x ∷ r) (take-take_append n m a b (omega arith))

  get_elem?-take_append :
      (src rest : List V) (n i : ℕ)
      → i < n
      → n ≤ length src
      → get_elem? (take n src ++ rest) i ≡ get_elem? src i
  get_elem?-take_append src rest zero i lt fits = absurd (omega arith)
  get_elem?-take_append [] rest (suc n) i lt fits = absurd (omega arith)
  get_elem?-take_append (x ∷ src) rest (suc n) zero lt fits = refl
  get_elem?-take_append (x ∷ src) rest (suc n) (suc i) lt fits =
      get_elem?-take_append src rest n i (omega arith) (omega arith)

  pub get_elem?-memcpy :
      (dest src : List V) (n i : ℕ)
      → i < n
      → n ≤ length src
      → get_elem? (memcpy dest src n) i ≡ get_elem? src i
  get_elem?-memcpy dest src n = get_elem?-take_append src (drop n dest) n

  pub length-memcpy :
      (dest src : List V) (n : ℕ)
      → n ≤ length src
      → n ≤ length dest
      → length (memcpy dest src n) ≡ length dest
  length-memcpy dest src n hs hd = rw (length-append, length-take, length-drop) (omega arith)

  module _ (null : V) where
    -- The vector has room for so many entries more, and keeps those in use.
    pub record Reserved (env : ObjEnv V) (n : ℕ) (r : ObjEnv V) : Type 0 where
      pub used : r.used ≡ env.used
      pub kept : entries r ≡ entries env
      pub room : env.used + n ≤ length r.values
      pub size : length r.values ≡ (
          if ltb (length env.values) (env.used + n)
          then 2 * length env.values + n
          else length env.values)

    -- The vector would have to grow beyond the largest one.
    abbrev pub TooLarge : ObjEnv V → ℕ → Type 0
    TooLarge env n =
        (length env.values < env.used + n) × (max_vector_size < 2 * length env.values + n)

    reserve_runs :
        (env : ObjEnv V) (n : ℕ)
        → env.used + n < 2 ^ 64
        → 2 * length env.values + n < 2 ^ 64
        → env_reserve null env n ≡ (
            if ltb (length env.values) (env.used + n)
            then alloc_vector null (2 * length env.values + n) >>= (λ newp.
              some (record env { values = memcpy newp env.values (length env.values) }))
            else some env)
    unfolding env_reserve
    reserve_runs env n h k =
        let sum : (env.used + n) % 2 ^ 64 ≡ env.used + n = omega arith in
        let new : (2 * length env.values + n) % 2 ^ 64 ≡ 2 * length env.values + n = omega arith in
        rw (env_reserve, sum, new) refl

    grown-Reserved :
        (env : ObjEnv V) (n : ℕ)
        → IsValid env
        → ltb (length env.values) (env.used + n) ≡ true
        → Reserved env n (record env {
          values =
              memcpy (replicate (2 * length env.values + n) null) env.values (length env.values);
        })
    grown-Reserved env n valid more =
        let size = length env.values in
        let new = replicate (2 * size + n) null in
        let len : length (memcpy new env.values size) ≡ 2 * size + n =
          length-memcpy new env.values size (omega arith) (rw length-replicate (omega arith))
          ∙ length-replicate (2 * size + n) null in
        record {
          used = refl;
          kept = take-take_append env.used size env.values (drop size new) (omega arith);
          room = omega arith;
          size = rw more len;
        }

    pub env_reserve-Reserved :
        (env : ObjEnv V) (n : ℕ)
        → IsValid env
        → length env.values ≤ max_vector_size
        → n < 2 ^ 59
        → ((r : ObjEnv V) × (env_reserve null env n ≡ some r) × Reserved env n r)
          ⊎ ((env_reserve null env n ≡ none) × TooLarge env n)
    env_reserve-Reserved env n valid small few =
        let runs = reserve_runs env n (omega arith) (omega arith) in
        elim (Bool-cases (ltb (length env.values) (env.used + n))) [
          | inr e ↦ inl (
            env,
            runs ∙ rw e refl,
            record { used = refl; kept = refl; room = ground arith; size = rw e refl },
          )
          | inl e ↦ elim (dec_lt max_vector_size (2 * length env.values + n)) [
            | yes large ↦ inr (
              runs
                  ∙ rw e (
                      rw (alloc_vector-none null (2 * length env.values + n) large (omega arith))
                        refl),
              (ltb→lt (length env.values) (env.used + n) e, large),
            )
            | no fits ↦ inl (
              record env {
                values =
                    memcpy (replicate (2 * length env.values + n) null) env.values
                      (length env.values);
              },
              runs
                  ∙ rw e
                      (rw (alloc_vector-fits null (2 * length env.values + n) (omega arith)) refl),
              grown-Reserved env n valid e,
            )
          ]
        ]
