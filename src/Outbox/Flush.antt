-- ===== src/Outbox/Flush.antt =====
-- The proofs about `flush` of `EventOutbox` in roc_adapter_runtime.py.
use roc_robot_sdk.Base.{
  Option, ◌≤◌, ap, some, map, arith, is_empty, refl, sym, ◌∙◌, inl, inr, true, false, ◌++◌,
  Bool-cases, length, length-append, ℕ, ◌+◌, ◌≡◌, Bool, List, [], ◌∷◌, if◌then◌else◌,
}
use roc_robot_sdk.Failure.{ok-injective, Result, ok, err}
use roc_robot_sdk.Py.Json.{null, bool, obj, Dict, put}
use mathlib.Core.Path.{subst}
use mathlib.Core.List.{append_assoc, append-nil}
use roc_robot_sdk.Outbox.{
  Line, blank, corrupt, entry, EventOutbox, is_success, is_delivered, cons_ok, flush_lines,
  dict_splits, count_delivered, as_entry, finish, flush_file, flush, Counts,
}

-- The records of the file that are not marked as delivered, in order.
pub pending_in : List Line → List Dict
pending_in [] = []
pending_in (entry (obj d) ∷ lines) =
    if is_delivered d then pending_in lines else d ∷ pending_in lines
pending_in (_ ∷ lines) = pending_in lines

-- `rs` are the records of the lines, each as it was if it was delivered, and otherwise marked with
-- the outcome of its attempt; the attempts are numbered from `k`.
pub Retried : (ℕ → Bool) → ℕ → List Line → List Dict → Type 0
Retried outcome k [] rs = rs ≡ []
Retried outcome k (entry (obj d) ∷ lines) [] = ⊥
Retried outcome k (entry (obj d) ∷ lines) (r ∷ rs) =
    if is_delivered d
    then (r ≡ d) × Retried outcome k lines rs
    else (r ≡ put "delivered" (bool (outcome k)) d) × Retried outcome (k + 1) lines rs
Retried outcome k (blank ∷ lines) rs = Retried outcome k lines rs
Retried outcome k (_ ∷ lines) rs = ⊥

-- What `flush_lines` has done, where it read every line.
abbrev Flushed : EventOutbox → List Line → Result (List Dict) × EventOutbox → Type 0
Flushed o lines (ok rs, o') =
    Retried (λ k. is_success (o.replies k)) (length o.posted) lines rs
    × (o'.posted ≡ o.posted ++ pending_in lines)
Flushed o lines (err e, o') = Unit

-- A delivered record is passed over.
Flushed-delivered :
    (o : EventOutbox) (d : Dict) (lines : List Line) (x : Result (List Dict) × EventOutbox)
    → is_delivered d ≡ true
    → Flushed o lines x
    → Flushed o (entry (obj d) ∷ lines) (cons_ok d x)
unfolding Retried pending_in
Flushed-delivered o d lines (ok rs, o') e h = rw e ((refl, h.0), h.1)
Flushed-delivered o d lines (err f, o') e h = tt

-- Another is posted, after those before it.
Flushed-posted :
    (o : EventOutbox) (d : Dict) (lines : List Line) (x : Result (List Dict) × EventOutbox)
    → is_delivered d ≡ false
    → Flushed (record o { posted = o.posted ++ d ∷ [] }) lines x
    → Flushed o
        (entry (obj d) ∷ lines)
        (cons_ok (put "delivered" (bool (is_success (o.replies (length o.posted)))) d) x)
unfolding Retried pending_in
Flushed-posted o d lines (ok rs, o') e h = rw e (
  (
    refl,
    subst (λ (k : ℕ). Retried (λ j. is_success (o.replies j)) k lines rs)
        (length-append o.posted (d ∷ [])) h.0,
  ),
  h.1 ∙ append_assoc o.posted (d ∷ []) (pending_in lines),
)
Flushed-posted o d lines (err f, o') e h = tt

Flushed-blank :
    (o : EventOutbox) (lines : List Line) (x : Result (List Dict) × EventOutbox)
    → Flushed o lines x
    → Flushed o (blank ∷ lines) x
unfolding Retried pending_in
Flushed-blank o lines (ok rs, o') h = h
Flushed-blank o lines (err e, o') h = tt

flush_lines-Flushed :
    (n : ℕ) (lines : List Line) (o : EventOutbox) → Flushed o lines (flush_lines n lines o)
unfolding flush_lines
flush_lines-Flushed n [] o =
    (unfold Retried in refl, unfold pending_in in sym (append-nil o.posted))
flush_lines-Flushed n (blank ∷ lines) o =
    Flushed-blank o lines _ (flush_lines-Flushed (n + 1) lines o)
flush_lines-Flushed n (corrupt ∷ lines) o = tt
flush_lines-Flushed n (entry (obj d) ∷ lines) o = elim (Bool-cases (dict_splits d)) [
  | inl broken ↦ rw broken tt
  | inr whole ↦ elim (Bool-cases (is_delivered d)) [
    | inl e ↦ rw (whole, e) (Flushed-delivered o d lines _ e (flush_lines-Flushed (n + 1) lines o))
    | inr e ↦
        rw (whole, e)
          (Flushed-posted o d lines _ e
            (flush_lines-Flushed (n + 1) lines (record o { posted = o.posted ++ d ∷ [] })))
  ]
]
flush_lines-Flushed n (entry null ∷ lines) o = tt
flush_lines-Flushed n (entry _ ∷ lines) o = tt

count_delivered-le : (rs : List Dict) → count_delivered rs ≤ length rs
unfolding count_delivered
count_delivered-le [] = omega arith
count_delivered-le (r ∷ rs) = ground (arith, count_delivered-le rs)

-- What a `flush` that returns has done to the outbox `o`, whose file had these lines.
pub record IsFlushed (o : EventOutbox) (lines : List Line) (c : Counts) (o' : EventOutbox)
    : Type 0 where
  pub records : List Dict
  pub retried : Retried (λ k. is_success (o.replies k)) (length o.posted) lines records
  pub written : o'.file ≡ some (map as_entry records)
  pub posted_pending : o'.posted ≡ o.posted ++ pending_in lines
  pub total_exact : c.total ≡ length records
  pub counted : c.delivered + c.pending ≡ c.total

finish-IsFlushed :
    (o : EventOutbox) (lines : List Line) (x : Result (List Dict) × EventOutbox) (c : Counts)
    → Flushed o lines x
    → (finish x).0 ≡ ok c
    → IsFlushed o lines c (finish x).1
unfolding finish
finish-IsFlushed o lines (ok rs, o') c h p =
    let q = ok-injective p in
    record {
      records = rs;
      retried = h.0;
      written = refl;
      posted_pending = h.1;
      total_exact = sym (ap (λ (x : Counts). x.total) q);
      counted =
          subst (λ (x : Counts). x.delivered + x.pending ≡ x.total) q
            (omega (arith, count_delivered-le rs));
    }
finish-IsFlushed o lines (err e, o') c h p = absurd (cc p)

flush-eq-finish :
    (o : EventOutbox) (lines : List Line)
    → is_empty o.endpoint ≡ false
    → o.file ≡ some lines
    → flush o ≡ finish (flush_lines 1 lines o)
unfolding flush flush_file
flush-eq-finish o lines e f = rw e (ap (λ (x : Option (List Line)). flush_file x o) f)

-- With an endpoint and a file, a `flush` that returns has posted each record that was not marked as
-- delivered once, in order, and no other record; the new file has every record, each that was posted
-- marked with its outcome and the others as they were; and the numbers that it returns add up.
pub flush-IsFlushed :
    (o : EventOutbox) (lines : List Line) (c : Counts)
    → is_empty o.endpoint ≡ false
    → o.file ≡ some lines
    → (flush o).0 ≡ ok c
    → IsFlushed o lines c (flush o).1
flush-IsFlushed o lines c e f p =
    let q = flush-eq-finish o lines e f in
    subst (λ (x : Result Counts × EventOutbox). IsFlushed o lines c x.1) (sym q)
      (finish-IsFlushed o lines (flush_lines 1 lines o) c (flush_lines-Flushed 1 lines o)
        (ap (λ (x : Result Counts × EventOutbox). x.0) (sym q) ∙ p))
