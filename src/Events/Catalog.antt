-- ===== src/Events/Catalog.antt =====
-- What the catalog of events guarantees.
use real_estate_agent.Common.Enum.{member}
use real_estate_agent.Decisions.Negotiation.{action_value, Action, negotiation_event}
use real_estate_agent.Common.{
  String, ◌≡◌, refl, ◌↔◌, inl, inr, true, false, some, List, [], ◌∷◌, arith, str_eq, eq_iff,
  Bool-cases, All,
}
use mathlib.Core.Path.{subst}
use mathlib.Core.Option.{some-injective, none-ne-some}
use Prim.Native.String.{◌++◌ as ◌⊕◌}
use real_estate_agent.Events.{
  outcome_events, decision_events, reaction_events, actor_events, market_events, member, registry,
  all_namespaces, namespace_of, namespace_from, is_known_event, EventNamespace, has_event,
  is_known_from, market, actor, reaction, decision, outcome,
}

any_of-All :
    (P : String → Type 0) (events : List String) (e : String)
    → All P events
    → has_event events e ≡ true
    → P e
unfolding has_event
any_of-All P [] e h m = absurd (ground arith)
any_of-All P (x ∷ events) e (p, h) m = elim (Bool-cases (str_eq x e)) [
  | inl a ↦ subst P ((eq_iff x e).0 a) p
  | inr b ↦ any_of-All P events e h (rw b at m)
]

namespace_from-has_event :
    (nss : List EventNamespace) (e : String) (ns : EventNamespace)
    → namespace_from nss e ≡ some ns
    → has_event (registry ns) e ≡ true
unfolding namespace_from
namespace_from-has_event [] e ns h = absurd (none-ne-some ns h)
namespace_from-has_event (n ∷ nss) e ns h = elim (Bool-cases (has_event (registry n) e)) [
  | inl a ↦ subst (λ k. has_event (registry k) e ≡ true) (some-injective n ns (rw a at h)) a
  | inr b ↦ namespace_from-has_event nss e ns (rw b at h)
]

-- The namespace that owns an event is the one whose registry lists it: no event stands in two.
pub namespace_of_iff :
    (e : String) (ns : EventNamespace)
    → (namespace_of e ≡ some ns) ↔ (has_event (registry ns) e ≡ true)
namespace_of_iff e ns =
    ((λ h. namespace_from-has_event all_namespaces e ns (unfold namespace_of in h)), listed ns)
  where
    listed : (n : EventNamespace) → has_event (registry n) e ≡ true → namespace_of e ≡ some n
    listed market m =
        any_of-All (λ x. namespace_of x ≡ some market) market_events e
          (unfold namespace_of has_event in
            (refl, (refl, (refl, (refl, (refl, (refl, (refl, (refl, (refl, (refl, tt)))))))))))
          m
    listed actor m =
        any_of-All (λ x. namespace_of x ≡ some actor) actor_events e
          (unfold namespace_of has_event in
            (refl, (refl, (refl, (refl, (refl, (refl, (refl, (refl, tt)))))))))
          m
    listed reaction m =
        any_of-All (λ x. namespace_of x ≡ some reaction) reaction_events e
          (unfold namespace_of has_event in
            (refl, (refl, (refl, (refl, (refl, (refl, (refl, tt))))))))
          m
    listed decision m =
        any_of-All (λ x. namespace_of x ≡ some decision) decision_events e
          (unfold namespace_of has_event in
            (
              refl,
              (
                refl,
                (
                  refl,
                  (
                    refl,
                    (refl, (refl, (refl, (refl, (refl, (refl, (refl, (refl, (refl, tt))))))))),
                  ),
                ),
              ),
            ))
          m
    listed outcome m =
        any_of-All (λ x. namespace_of x ≡ some outcome) outcome_events e
          (unfold namespace_of has_event in
            (refl, (refl, (refl, (refl, (refl, (refl, (refl, (refl, tt)))))))))
          m

known_from-namespace_from :
    (nss : List EventNamespace) (e : String)
    → (is_known_from nss e ≡ true) ↔ ((ns : EventNamespace) × (namespace_from nss e ≡ some ns))
unfolding is_known_from namespace_from
known_from-namespace_from [] e = (λ h. absurd (ground arith), λ h. absurd (ground arith))
known_from-namespace_from (n ∷ nss) e = elim (Bool-cases (has_event (registry n) e)) [
  | inl a ↦ rw a ((λ h. (n, refl)), (λ h. refl))
  | inr b ↦ rw b (known_from-namespace_from nss e)
]

-- An event is known exactly if a namespace owns it, and then that is the only one.
pub is_known_event_iff :
    (e : String) → (is_known_event e ≡ true) ↔ ((ns : EventNamespace) × (namespace_of e ≡ some ns))
unfolding is_known_event namespace_of
is_known_event_iff e = known_from-namespace_from all_namespaces e

-- None of the events that the negotiation names after its actions is in the catalog.
pub negotiation_event-unknown :
    (a : Action) (name : String)
    → negotiation_event (member a) ≡ some name
    → is_known_event name ≡ false
unfolding negotiation_event is_known_event action_value
negotiation_event-unknown a name h =
    subst (λ s. is_known_event s ≡ false) (some-injective _ name h) (each a)
  where
    each : (b : Action) → is_known_event ("negotiation." ⊕ action_value b) ≡ false
    each Action.accept = refl
    each _ = refl
