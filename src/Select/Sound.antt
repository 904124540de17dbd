-- ===== src/Select/Sound.antt =====
-- The adapter that `select_adapter` of roc_adapter_runtime.py returns.
use roc_robot_sdk.Base.{
  ap, ◌⊎◌, Option, arith, some_inj, subset, sorted, String, ◌≡◌, inl, inr, true, false, none, some,
  List, [], ◌∷◌, eq_iff, Bool-cases, Option-cases, All, ◌==◌, mem,
}
use roc_robot_sdk.Failure.{ok, ok-injective, >>=-eq-ok}
use mathlib.Core.Path.{subst}
use roc_robot_sdk.Table.{find, names}
use roc_robot_sdk.Manifest.{AdapterManifest}
use roc_robot_sdk.Discover.{Manifests}
use roc_robot_sdk.Discover.Registry.{Keyed, find-Keyed}
use roc_robot_sdk.Job.{Job}
use roc_robot_sdk.Select.{
  can_execute, first_capable, add_found, values_at, candidates, or_refuse, select_adapter,
}

first_capable-All :
    (P : AdapterManifest → Type 0) (job : Job) (m : AdapterManifest) (ms : List AdapterManifest)
    → All P ms
    → first_capable job ms ≡ some m
    → P m × (can_execute job m ≡ true)
unfolding first_capable
first_capable-All P job m [] h f = absurd (cc f)
first_capable-All P job m (n ∷ ms) h f = elim (Bool-cases (can_execute job n)) [
  | inl e ↦
      let p = some_inj (rw e at f) in (subst P p h.0, subst (λ x. can_execute job x ≡ true) p e)
  | inr e ↦ first_capable-All P job m ms h.1 (rw e at f)
]

module _ (job : Job) (m : AdapterManifest) (ms : List AdapterManifest) where
  pub first_capable-able : can_execute job m ≡ true → first_capable job (m ∷ ms) ≡ some m
  unfolding first_capable
  first_capable-able e = rw e

  pub first_capable-unable :
      can_execute job m ≡ false → first_capable job (m ∷ ms) ≡ first_capable job ms
  unfolding first_capable
  first_capable-unable e = rw e

-- No candidate was passed over that could have run the job.
pub first_capable-none :
    (job : Job) (ms : List AdapterManifest)
    → first_capable job ms ≡ none
    → All (λ m. can_execute job m ≡ false) ms
unfolding first_capable
first_capable-none job [] f = tt
first_capable-none job (n ∷ ms) f = elim (Bool-cases (can_execute job n)) [
  | inl e ↦ absurd (cc (rw e at f))
  | inr e ↦ (e, first_capable-none job ms (rw e at f))
]

module _ (d : Manifests) where
  values_at-All :
      (P : AdapterManifest → Type 0)
      → ((k : String) (m : AdapterManifest) → find k d ≡ some m → P m)
      → (ks : List String) → All P (values_at ks d)
  unfolding values_at
  values_at-All P h [] = tt
  values_at-All P h (k ∷ ks) = elim (Option-cases (find k d)) [
    | inl e ↦ rw e (values_at-All P h ks)
    | inr (m, e) ↦ rw e (h k m e, values_at-All P h ks)
  ]

  -- Each adapter of the dictionary is a candidate.
  pub All-values_at :
      (P : AdapterManifest → Type 0) (k : String) (m : AdapterManifest) (ks : List String)
      → find k d ≡ some m
      → mem k ks ≡ true
      → All P (values_at ks d)
      → P m
  unfolding values_at mem
  All-values_at P k m [] f i h = absurd (cc i)
  All-values_at P k m (j ∷ ks) f i h = elim (Bool-cases (k == j)) [
    | inl e ↦ let g : find j d ≡ some m = cc ((eq_iff k j).0 e, f) in (rw (g, add_found) at h).0
    | inr e ↦ All-values_at P k m ks f (rw e at i) (tail (find j d) h)
  ]
    where
      tail :
          (o : Option AdapterManifest)
          → All P (add_found o (values_at ks d))
          → All P (values_at ks d)
      tail none g = g
      tail (some n) g = g.1

-- What an answer of `select_adapter` means.
pub record IsAnswer (d : Manifests) (job : Job) (adapter_id : String) (m : AdapterManifest)
    : Type 0 where
  pub enabled : find m.adapter_id d ≡ some m
  pub requested : (adapter_id ≡ "auto") ⊎ (m.adapter_id ≡ adapter_id)
  pub declares_type : mem job.job_type m.job_types ≡ true
  pub has_capabilities : subset job.required m.capabilities ≡ true

module _ (d : Manifests) (keyed : Keyed d) (job : Job) where
  pub or_refuse-some :
      (a : String) (o : Option AdapterManifest) (m : AdapterManifest)
      → or_refuse a o ≡ ok m
      → o ≡ some m
  or_refuse-some a (some n) m h = ap some (ok-injective h)
  or_refuse-some a none m h = cc

  candidates-All :
      (a : String) (ms : List AdapterManifest)
      → candidates d a ≡ ok ms
      → All (λ m. (find m.adapter_id d ≡ some m) × ((a ≡ "auto") ⊎ (m.adapter_id ≡ a))) ms
  unfolding candidates
  candidates-All a ms h = elim (Bool-cases (a == "auto")) [
    | inl e ↦ subst (All _) (ok-injective (rw e at h)) (
        values_at-All d _ (λ k m f. (cc (find-Keyed k m d keyed f, f), inl ((eq_iff a "auto").0 e)))
          (sorted (names d)))
    | inr e ↦ elim (Option-cases (find a d)) [
      | inl n ↦ absurd (cc (rw (e, n) at h))
      | inr (m, f) ↦
          subst (All _) (ok-injective (rw (e, f) at h))
            ((cc (find-Keyed a m d keyed f, f), inr (find-Keyed a m d keyed f)), tt)
    ]
  ]

  -- In a registry, an adapter that `select_adapter` returns is one of the registry's; it is the one
  -- that was asked for, unless that was `auto`; it declares the job's type; and it has every
  -- capability that the job requires.
  pub select_adapter-IsAnswer :
      (a : String) (m : AdapterManifest) → select_adapter d job a ≡ ok m → IsAnswer d job a m
  unfolding select_adapter can_execute
  select_adapter-IsAnswer a m h =
      let (ms, p, q) = >>=-eq-ok (candidates d a) _ h in
      let ((known, asked), able) =
        first_capable-All _ job m ms (candidates-All a ms p)
          (or_refuse-some a (first_capable job ms) m q) in
      record {
        enabled = known;
        requested = asked;
        declares_type = ground arith;
        has_capabilities = ground arith;
      }
