-- ===== src/Reactions/Social/Graph.antt =====
-- The neighbors of a household against the edges.
use real_estate_agent.Reactions.Topics.{Resident}
use real_estate_agent.Decisions.Policies.{or_nil}
use real_estate_agent.Common.Dict.{get, Dict, get-assign, string_key}
use real_estate_agent.Reactions.Social.{
  Opinions, Resident, to_source, to_target, new_social, Link, add_link, neighbors_of, Edge,
  add_edge,
}
use real_estate_agent.Common.{
  String, ◌≡◌, refl, sym, ap, ◌∙◌, inl, inr, List, [], ◌∷◌, ◌++◌, foldl, str_eq, eq_iff,
  if◌then◌else◌, Bool-cases,
}
use mathlib.Core.List.{append_assoc, append-nil}

module _ {ℓ} {F : Type ℓ} where
  -- What an edge gives a household: the target to its source, and the source to its target.
  abbrev pub links_of : String → Edge F → List (Link F)
  links_of id e =
      (if str_eq e.source_id id then to_target e ∷ [] else [])
      ++ (if str_eq e.target_id id then to_source e ∷ [] else [])

  abbrev pub all_links : String → List (Edge F) → List (Link F)
  all_links id [] = []
  all_links id (e ∷ edges) = links_of id e ++ all_links id edges

  get-add_link :
      (neighbors : Dict String (List (Link F))) (at id : String) (link : Link F)
      → or_nil (get (add_link neighbors at link) id)
        ≡ or_nil (get neighbors id) ++ (if str_eq at id then link ∷ [] else [])
  unfolding add_link
  get-add_link neighbors at id link = elim (Bool-cases (str_eq at id)) [
    | inl a ↦
        rw (get-assign neighbors at id (or_nil (get neighbors at) ++ (link ∷ [])), a)
          (rw ((eq_iff at id).0 a) refl)
    | inr b ↦
        rw (get-assign neighbors at id (or_nil (get neighbors at) ++ (link ∷ [])), b)
          (sym (append-nil (or_nil (get neighbors id))))
  ]

  get-add_edge :
      (neighbors : Dict String (List (Link F))) (e : Edge F) (id : String)
      → or_nil (get (add_edge neighbors e) id) ≡ or_nil (get neighbors id) ++ links_of id e
  unfolding add_edge
  get-add_edge neighbors e id =
      get-add_link (add_link neighbors e.source_id (to_target e)) e.target_id id (to_source e)
      ∙ ap (λ (ls : List (Link F)). ls ++ (if str_eq e.target_id id then to_source e ∷ [] else []))
          (get-add_link neighbors e.source_id id (to_target e))
      ∙ append_assoc (or_nil (get neighbors id))
          (if str_eq e.source_id id then to_target e ∷ [] else [])
          (if str_eq e.target_id id then to_source e ∷ [] else [])

  fold-add_edge :
      (edges : List (Edge F)) (neighbors : Dict String (List (Link F))) (id : String)
      → or_nil (get (foldl add_edge neighbors edges) id)
        ≡ or_nil (get neighbors id) ++ all_links id edges
  fold-add_edge [] neighbors id = sym (append-nil (or_nil (get neighbors id)))
  fold-add_edge (e ∷ edges) neighbors id =
      fold-add_edge edges (add_edge neighbors e) id
      ∙ ap (λ (ls : List (Link F)). ls ++ all_links id edges) (get-add_edge neighbors e id)
      ∙ append_assoc (or_nil (get neighbors id)) (links_of id e) (all_links id edges)

  -- The neighbors of a household are the other ends of its edges, in the order of the edges and with
  -- their weights and types; an edge from a household to itself counts twice.
  pub neighbors_of-all_links :
      (households : List (Resident F)) (edges : List (Edge F)) (opinions : Opinions F) (id : String)
      → neighbors_of (new_social households edges opinions) id ≡ all_links id edges
  unfolding neighbors_of new_social get
  neighbors_of-all_links households edges opinions id = fold-add_edge edges [] id
