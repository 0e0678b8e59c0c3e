-- ===== src/Store/EventStore/Sequence.antt =====
-- The sequence numbers of an aggregate, and what is read back after any appends.
use real_estate_agent.Common.Sort.{sort_stable-id, sort_stable, IsSorted}
use real_estate_agent.Store.EventStore.{
  get_events, of_aggregate, append, event_with, max_sequence, DomainEvent, NewEvent,
}
use real_estate_agent.Common.{
  ℕ, ◌+◌, ◌<◌, max, String, ◌≡◌, refl, sym, ap, ◌∙◌, inl, inr, Bool, false, ◌&&◌, List, [], ◌∷◌,
  ◌++◌, arith, str_eq, eq_iff, ltb, Bool-cases, length, All, keep_if, keep_if-in, keep_if-out,
  keep_if-append,
}
use mathlib.Core.List.{append_assoc, append-nil}
use mathlib.Core.Path.{subst}

module _ {ℓ} {J : Type ℓ} where
  abbrev addressed : String → String → NewEvent J → Bool
  addressed type id n = str_eq n.aggregate_type type && str_eq n.aggregate_id id

  -- The log of an aggregate: its events numbered in the order of their arrival.
  abbrev pub numbered_from : ℕ → List (NewEvent J) → List (DomainEvent J)
  numbered_from k [] = []
  numbered_from k (n ∷ ns) = event_with k n ∷ numbered_from (k + 1) ns

  -- The table after the appends, from the empty one.
  abbrev pub append_all : List (DomainEvent J) → List (NewEvent J) → List (DomainEvent J)
  append_all table [] = table
  append_all table (n ∷ ns) = append_all (append table n).1 ns

  abbrev pub log_of : String → String → List (NewEvent J) → List (NewEvent J)
  log_of type id = keep_if (addressed type id)

  max_sequence-numbered_from :
      (k : ℕ) (ns : List (NewEvent J))
      → max k (max_sequence (numbered_from (k + 1) ns)) ≡ k + length ns
  max_sequence-numbered_from k [] = omega arith
  max_sequence-numbered_from k (n ∷ ns) = omega (arith, max_sequence-numbered_from (k + 1) ns)

  numbered_from-append :
      (k : ℕ) (ns : List (NewEvent J)) (n : NewEvent J)
      → numbered_from k ns ++ event_with (k + length ns) n ∷ [] ≡ numbered_from k (ns ++ n ∷ [])
  numbered_from-append k [] n = ap (λ j. event_with j n ∷ []) (omega arith)
  numbered_from-append k (m ∷ ns) n =
      ap (λ es. event_with k m ∷ es)
        (ap (λ j. numbered_from (k + 1) ns ++ event_with j n ∷ []) (omega arith)
          ∙ numbered_from-append (k + 1) ns n)

  All-numbered_from :
      (j k : ℕ) (ns : List (NewEvent J))
      → j < k
      → All (λ e. ltb e.sequence j ≡ false) (numbered_from k ns)
  All-numbered_from j k [] h = tt
  All-numbered_from j k (n ∷ ns) h = (ground arith, All-numbered_from j (k + 1) ns (omega arith))

  numbered_from-IsSorted :
      (k : ℕ) (ns : List (NewEvent J))
      → IsSorted (λ a b. ltb b.sequence a.sequence) (numbered_from k ns)
  numbered_from-IsSorted k [] = tt
  numbered_from-IsSorted k (n ∷ ns) =
      (All-numbered_from k (k + 1) ns (omega arith), numbered_from-IsSorted (k + 1) ns)

  -- Every aggregate's rows are its log, numbered from one.
  abbrev pub IsLog : List (DomainEvent J) → List (NewEvent J) → Type ℓ
  IsLog table ns =
      (type id : String)
      → keep_if (of_aggregate type id) table ≡ numbered_from 1 (log_of type id ns)

  next_sequence :
      (table : List (DomainEvent J)) (ns : List (NewEvent J)) (type id : String)
      → IsLog table ns
      → max_sequence (keep_if (of_aggregate type id) table) ≡ length (log_of type id ns)
  next_sequence table ns type id h =
      ap max_sequence (h type id) ∙ omega (arith, max_sequence-numbered_from 0 (log_of type id ns))

  append-IsLog :
      (table : List (DomainEvent J)) (ns : List (NewEvent J)) (n : NewEvent J)
      → IsLog table ns
      → IsLog (append table n).1 (ns ++ n ∷ [])
  unfolding append
  append-IsLog table ns n h type id = elim (Bool-cases (addressed type id n)) [
    | inl e ↦
        let t : n.aggregate_type ≡ type = ground (arith, eq_iff n.aggregate_type type) in
        let i : n.aggregate_id ≡ id = ground (arith, eq_iff n.aggregate_id id) in
        let seq : max_sequence (keep_if (of_aggregate n.aggregate_type n.aggregate_id) table) + 1
            ≡ 1 + length (log_of type id ns) =
          rw (t, i) (omega (arith, next_sequence table ns type id h)) in
        keep_if-append (of_aggregate type id) table (event ∷ [])
        ∙ ap (λ es. keep_if (of_aggregate type id) table ++ es)
            (keep_if-in (of_aggregate type id) event [] e)
        ∙ ap (λ es. es ++ event ∷ []) (h type id)
        ∙ ap (λ k. numbered_from 1 (log_of type id ns) ++ event_with k n ∷ []) seq
        ∙ numbered_from-append 1 (log_of type id ns) n
        ∙ sym (
            ap (numbered_from 1) (
              keep_if-append (addressed type id) ns (n ∷ [])
              ∙ ap (λ ms. log_of type id ns ++ ms) (keep_if-in (addressed type id) n [] e)))
    | inr e ↦
        keep_if-append (of_aggregate type id) table (event ∷ [])
        ∙ ap (λ es. keep_if (of_aggregate type id) table ++ es)
            (keep_if-out (of_aggregate type id) event [] e)
        ∙ append-nil _
        ∙ h type id
        ∙ sym (
            ap (numbered_from 1) (
              keep_if-append (addressed type id) ns (n ∷ [])
              ∙ ap (λ ms. log_of type id ns ++ ms) (keep_if-out (addressed type id) n [] e)
              ∙ append-nil _))
  ]
    where
      event : DomainEvent J
      event = (append table n).0

  append_all-IsLog :
      (table : List (DomainEvent J)) (before ns : List (NewEvent J))
      → IsLog table before
      → IsLog (append_all table ns) (before ++ ns)
  append_all-IsLog table before [] h = rw (append-nil before) h
  append_all-IsLog table before (n ∷ ns) h =
      subst (IsLog (append_all (append table n).1 ns)) (append_assoc before (n ∷ []) ns)
        (append_all-IsLog (append table n).1 (before ++ n ∷ []) ns (append-IsLog table before n h))

  -- After any sequence of appends to an empty table, the events that are read back for an aggregate
  -- are exactly the ones appended to it, in the order of their arrival and numbered from one without
  -- a gap.
  pub get_events-append_all :
      (ns : List (NewEvent J)) (type id : String)
      → get_events (append_all [] ns) type id ≡ numbered_from 1 (log_of type id ns)
  unfolding get_events
  get_events-append_all ns type id =
      ap (sort_stable (λ a b. ltb b.sequence a.sequence))
        (append_all-IsLog [] [] ns (λ t i. refl) type id)
      ∙ sort_stable-id (λ a b. ltb b.sequence a.sequence) _
          (numbered_from-IsSorted 1 (log_of type id ns))
