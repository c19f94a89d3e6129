-- ===== src/Env/Lookup.antt =====
-- kern/env.c: envid2env.
use native.Mathlib.Decide.{ℕ_discrete}
use jos_kernel.Base.{
  Bool, Option, false, if◌then◌else◌, none, not, some, true, ℕ, ◌%◌, ◌&&◌, ◌==◌, ◌||◌, ◌≡◌, ◌≢◌,
  ◌⊎◌, ==_iff, ==_ne, Bool-cases, ap, inl, inr, refl, ◌∙◌, and-false,
}
use jos_kernel.Kernel.Outcome.{Cmd, Ret, bad_env, err, fault, ok, pure, val, ◌>>=◌}
use jos_kernel.Kernel.State.{Kernel, Status, free, dying, not_runnable, runnable, running}

-- The number of environments.
abbrev pub nenv : ℕ
nenv = 1024

-- ENVX(envid)
abbrev pub envx : ℕ → ℕ
envx envid = envid % nenv

abbrev pub is_free : Status → Bool
is_free free = true
is_free _ = false

abbrev pub is_curenv : ℕ → Kernel → Bool
is_curenv e k = elim k.curenv [ none ↦ false | some c ↦ c == e ]

-- The pointer stored in `*env_store`, and the result.
abbrev pub Found : Type 0
Found = Option ℕ × Ret

-- `e->env_parent_id != curenv->env_id`, which reads through curenv.
not_my_child : ℕ → Cmd Bool
not_my_child e k = elim k.curenv [
  | none ↦ fault
  | some c ↦ ok (not ((k.envs e).env_parent_id == (k.envs c).env_id)) k
]

unfoldable pub envid2env : ℕ → Bool → Cmd Found
unfolding not_my_child
envid2env envid checkperm k =
    let e = envx envid in
    if envid == 0
    then ok (k.curenv, val 0) k
    else if is_free (k.envs e).env_status || not ((k.envs e).env_id == envid)
    then ok (none, err bad_env) k
    else if checkperm && not (is_curenv e k)
    then (do
      stranger ← not_my_child e
      pure (if stranger then (none, err bad_env) else (some e, val 0)))
        k
    else ok (some e, val 0) k

-- Who may name environment `e` by `envid`.
pub record MayName (k : Kernel) (c : ℕ) (envid : ℕ) (checkperm : Bool) : Type 0 where
  pub live : (k.envs (envx envid)).env_status ≢ free
  pub current_id : (k.envs (envx envid)).env_id ≡ envid
  pub related :
      (checkperm ≡ false)
      ⊎ (c ≡ envx envid)
      ⊎ ((k.envs (envx envid)).env_parent_id ≡ (k.envs c).env_id)

pub is_free-eq : (s : Status) → is_free s ≡ true → s ≡ free
is_free-eq free h = refl
is_free-eq dying h = cc
is_free-eq runnable h = cc
is_free-eq running h = cc
is_free-eq not_runnable h = cc

not_free : (s : Status) → is_free s ≡ false → s ≢ free
not_free s h e = cc (ap is_free e)

free_test : (s : Status) → s ≢ free → is_free s ≡ false
free_test s h = elim (Bool-cases (is_free s)) [ inl e ↦ absurd (h (is_free-eq s e)) | inr e ↦ e ]

and_not : (a b : Bool) → a ≡ true → (a && not b) ≡ false → b ≡ true
and_not a true p q = refl
and_not true false p q = cc
and_not false false p q = cc

module _ (envid c : ℕ) (checkperm : Bool) (k : Kernel) (cur : k.curenv ≡ some c)
    (ne : envid ≢ 0) where
  abbrev e : ℕ
  e = envx envid

  -- The answer once the slot is known to hold this environment.
  envid2env-live :
      (k.envs e).env_status ≢ free
      → (k.envs e).env_id ≡ envid
      → envid2env envid checkperm k
        ≡ ok
            (if checkperm && not (c == e)
              then (if not ((k.envs e).env_parent_id == (k.envs c).env_id)
                  then (none, err bad_env)
                  else (some e, val 0))
              else (some e, val 0))
            k
  unfolding envid2env
  envid2env-live live id =
      rw (==_ne envid 0 ne, free_test _ live, (==_iff _ envid).1 id, cur)
        (elim (Bool-cases (checkperm && not (c == e))) [ inl q ↦ rw q | inr q ↦ rw q ])

  envid2env-dead :
      (k.envs e).env_status ≡ free → envid2env envid checkperm k ≡ ok (none, err bad_env) k
  unfolding envid2env
  envid2env-dead dead = rw (==_ne envid 0 ne, dead)

  envid2env-stale :
      (k.envs e).env_id ≢ envid → envid2env envid checkperm k ≡ ok (none, err bad_env) k
  unfolding envid2env
  envid2env-stale stale = elim (Bool-cases (is_free (k.envs e).env_status)) [
    | inl q ↦ rw (==_ne envid 0 ne, q)
    | inr q ↦ rw (==_ne envid 0 ne, q, ==_ne _ envid stale)
  ]

  -- The three conditions of MayName, as the tests of the code.
  related-tests :
      (checkperm ≡ false) ⊎ (c ≡ e) ⊎ ((k.envs e).env_parent_id ≡ (k.envs c).env_id)
      → (checkperm && not (c == e)) ≡ false ⊎ ((k.envs e).env_parent_id == (k.envs c).env_id) ≡ true
  related-tests (inl q) = inl (rw q)
  related-tests (inr (inl q)) = inl (rw ((==_iff c e).1 q) (and-false checkperm))
  related-tests (inr (inr q)) = inr ((==_iff _ _).1 q)

  tests-related :
      (checkperm && not (c == e)) ≡ false ⊎ ((k.envs e).env_parent_id == (k.envs c).env_id) ≡ true
      → (checkperm ≡ false) ⊎ (c ≡ e) ⊎ ((k.envs e).env_parent_id ≡ (k.envs c).env_id)
  tests-related (inl q) = elim (Bool-cases checkperm) [
    | inr p ↦ inl p
    | inl p ↦ inr (inl ((==_iff c e).0 (and_not checkperm (c == e) p q)))
  ]
  tests-related (inr q) = inr (inr ((==_iff _ _).0 q))

  accepted : MayName k c envid checkperm → envid2env envid checkperm k ≡ ok (some e, val 0) k
  accepted m = elim (related-tests m.related) [
    | inl q ↦ envid2env-live m.live m.current_id ∙ rw q
    | inr q ↦
        envid2env-live m.live m.current_id
        ∙ elim (Bool-cases (checkperm && not (c == e))) [ inl p ↦ rw (p, q) | inr p ↦ rw p ]
  ]

  refused : ¬ MayName k c envid checkperm → envid2env envid checkperm k ≡ ok (none, err bad_env) k
  refused never = elim (Bool-cases (is_free (k.envs e).env_status)) [
    | inl q ↦ envid2env-dead (is_free-eq _ q)
    | inr q ↦ elim (ℕ_discrete (k.envs e).env_id envid) [
      | no stale ↦ envid2env-stale stale
      | yes id ↦
          let live = not_free (k.envs e).env_status q in
          envid2env-live live id ∙ elim (Bool-cases (checkperm && not (c == e))) [
            | inr p ↦
                absurd
                  (never (record { live = live; current_id = id; related = tests-related (inl p) }))
            | inl p ↦ elim (Bool-cases ((k.envs e).env_parent_id == (k.envs c).env_id)) [
              | inl r ↦
                  absurd (
                    never
                      (record { live = live; current_id = id; related = tests-related (inr r) }))
              | inr r ↦ rw (p, r)
            ]
          ]
    ]
  ]

  -- A nonzero envid gives the environment in its slot exactly when that environment is not free,
  -- has this very envid, and, if permission is checked, is the caller or a child of the caller;
  -- otherwise the result is -E_BAD_ENV with a null pointer. The state never changes.
  pub envid2env_lem :
      (MayName k c envid checkperm → envid2env envid checkperm k ≡ ok (some e, val 0) k)
      × (¬ MayName k c envid checkperm → envid2env envid checkperm k ≡ ok (none, err bad_env) k)
  envid2env_lem = (accepted, refused)
