-- ===== src/Select/Least.antt =====
-- `select_adapter` of roc_adapter_runtime.py with `auto`, and the order of the ids.
use roc_robot_sdk.Base.{
  sym, ◌∙◌, String, ◌≡◌, refl, inl, inr, true, false, Option, none, some, List, [], ◌∷◌, eq_iff,
  Bool-cases, Option-cases, ◌==◌, mem, text_leb, sorted, All-mem, IsSorted, sorted-IsSorted,
  mem-sorted, text_leb_refl,
}
use roc_robot_sdk.Failure.{Failure, ok, err, ◌>>=◌}
use roc_robot_sdk.Table.{find, names, has-names}
use roc_robot_sdk.Manifest.{AdapterManifest}
use roc_robot_sdk.Discover.{Manifests}
use roc_robot_sdk.Discover.Registry.{Keyed, find-Keyed}
use roc_robot_sdk.Job.{Job}
use roc_robot_sdk.Select.{
  can_execute, first_capable, add_found, values_at, candidates, or_refuse, select_adapter,
}
use roc_robot_sdk.Select.Sound.{
  or_refuse-some, first_capable-able, first_capable-unable, first_capable-none, All-values_at,
}

module _ (d : Manifests) (keyed : Keyed d) (job : Job) where
  -- A capable adapter that stands in the list comes no sooner than the one that is found.
  first_capable-leb :
      (m n : AdapterManifest) (k : String) (ks : List String)
      → IsSorted ks
      → mem k ks ≡ true
      → find k d ≡ some n
      → can_execute job n ≡ true
      → first_capable job (values_at ks d) ≡ some m
      → text_leb m.adapter_id k ≡ true
  unfolding values_at mem
  first_capable-leb m n k [] s i f c h = absurd (cc i)
  first_capable-leb m n k (j ∷ ks) s i f c h = elim (Bool-cases (k == j)) [
    | inl e ↦
        let g : find j d ≡ some n = cc ((eq_iff k j).0 e, f) in
        let p = sym (first_capable-able job n (values_at ks d) c) ∙ (rw (g, add_found) at h) in
        let same : m.adapter_id ≡ k = cc (p, find-Keyed k n d keyed f) in rw same (text_leb_refl k)
    | inr e ↦ elim (Option-cases (find j d)) [
      | inl g ↦ first_capable-leb m n k ks s.1 (rw e at i) f c (rw (g, add_found) at h)
      | inr (p, g) ↦ elim (Bool-cases (can_execute job p)) [
        | inl able ↦
            let q =
              sym (first_capable-able job p (values_at ks d) able) ∙ (rw (g, add_found) at h) in
            let same : m.adapter_id ≡ j = cc (q, find-Keyed j p d keyed g) in
            rw same (All-mem _ k ks s.0 (rw e at i))
        | inr unable ↦
            first_capable-leb m n k ks s.1 (rw e at i) f c
              (sym (first_capable-unable job p (values_at ks d) unable) ∙ (rw (g, add_found) at h))
      ]
    ]
  ]

  mem-sorted-names :
      (k : String) (n : AdapterManifest) → find k d ≡ some n → mem k (sorted (names d)) ≡ true
  mem-sorted-names k n f = rw (mem-sorted k (names d), ← has-names k d) (rw f)

  -- In a registry, the adapter that `auto` selects has the least id of all adapters that can execute
  -- the job, in the order of the code points.
  pub select_adapter-least :
      (m n : AdapterManifest) (k : String)
      → select_adapter d job "auto" ≡ ok m
      → find k d ≡ some n
      → can_execute job n ≡ true
      → text_leb m.adapter_id k ≡ true
  unfolding select_adapter candidates ◌>>=◌
  select_adapter-least m n k h f c =
      first_capable-leb m n k (sorted (names d)) (sorted-IsSorted (names d))
        (mem-sorted-names k n f) f c (or_refuse-some d keyed job "auto" _ m h)

  -- In a registry, if `auto` selects no adapter, then none of them can execute the job.
  pub select_adapter_complete :
      (e : Failure) (n : AdapterManifest) (k : String)
      → select_adapter d job "auto" ≡ err e
      → find k d ≡ some n
      → can_execute job n ≡ false
  unfolding select_adapter candidates ◌>>=◌
  select_adapter_complete e n k h f =
      All-values_at d (λ p. can_execute job p ≡ false) k n (sorted (names d)) f
        (mem-sorted-names k n f) (first_capable-none job _ (or_refuse-none _ h))
    where
      or_refuse-none : (o : Option AdapterManifest) → or_refuse "auto" o ≡ err e → o ≡ none
      or_refuse-none none p = refl
      or_refuse-none (some x) p = cc
