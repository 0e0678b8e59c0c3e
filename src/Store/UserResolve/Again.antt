-- ===== src/Store/UserResolve/Again.antt =====
-- Resolving the same request again, and the requests that are refused.
use mathlib.Core.Path.{subst}
use real_estate_agent.Store.Rows.{
  scalar-one, change_if-gain, change_if-stable, change_if, scalar-absent, one, several, absent,
  scalar_one_or_none, Scalar,
}
use real_estate_agent.Store.UserResolve.{
  with_found, lookup_error, with_email, link, multiple_results_found, has_supabase_id, by_email,
  has_id, Request, found_or, resolved, has_email, new_profile, UserProfile, resolve_user_profile,
}
use real_estate_agent.Common.{
  String, ◌≡◌, refl, sym, ap, ◌∙◌, ◌⊎◌, inl, inr, true, false, none, some, List, [], ◌∷◌, ◌++◌, map,
  arith, str_eq, eq_refl, Bool-cases, Option-cases, keep_if, keep_if-in, keep_if-out,
  keep_if-append,
}

abbrev id_result : List UserProfile → Request → Scalar UserProfile
id_result table r = scalar_one_or_none (keep_if (has_id r.identifier) table)

abbrev supabase_result : List UserProfile → Request → Scalar UserProfile
supabase_result table r = scalar_one_or_none (keep_if (has_supabase_id r.identifier) table)

abbrev email_result : List UserProfile → String → Scalar UserProfile
email_result table email = scalar_one_or_none (keep_if (has_email email) table)

by_id_lem :
    (table : List UserProfile) (n : String) (r : Request) {p : UserProfile}
    → id_result table r ≡ one p
    → resolve_user_profile table n r ≡ resolved p table
unfolding resolve_user_profile found_or
by_id_lem table n r e = rw e refl

by_supabase_lem :
    (table : List UserProfile) (n : String) (r : Request) {p : UserProfile}
    → id_result table r ≡ absent
    → supabase_result table r ≡ one p
    → resolve_user_profile table n r ≡ resolved p table
unfolding resolve_user_profile found_or
by_supabase_lem table n r e f = rw (e, f) refl

by_email_lem :
    (table : List UserProfile) (n : String) (r : Request)
    → id_result table r ≡ absent
    → supabase_result table r ≡ absent
    → resolve_user_profile table n r ≡ by_email table n r r.email
unfolding resolve_user_profile found_or
by_email_lem table n r e f = rw (e, f) refl

several_lem :
    (table : List UserProfile) (n : String) (r : Request)
    → (id_result table r ≡ several)
      ⊎ ((id_result table r ≡ absent) × (supabase_result table r ≡ several))
    → resolve_user_profile table n r ≡ multiple_results_found
unfolding resolve_user_profile found_or
several_lem table n r (inl e) = rw e refl
several_lem table n r (inr (e, f)) = rw (e, f) refl

Scalar-cases :
    (s : Scalar UserProfile) → (s ≡ absent) ⊎ (((p : UserProfile) × (s ≡ one p)) ⊎ (s ≡ several))
Scalar-cases absent = inl refl
Scalar-cases (one p) = inr (inl (p, refl))
Scalar-cases several = inr (inr refl)

resolved-injective :
    {p q : UserProfile} {s t : List UserProfile} → resolved p s ≡ resolved q t → (p ≡ q) × (s ≡ t)
resolved-injective h = ground (arith, h)

-- A linked profile is found by its Supabase id.
linked_again :
    (table : List UserProfile) (n : String) (r : Request) (email : String) (p : UserProfile)
    → id_result table r ≡ absent
    → supabase_result table r ≡ absent
    → email_result table email ≡ one p
    → resolve_user_profile (change_if (has_email email) (link r.identifier) table) n r
      ≡ resolved (link r.identifier p) (change_if (has_email email) (link r.identifier) table)
unfolding scalar_one_or_none
linked_again table n r email p e f g =
    by_supabase_lem after n r
      (ap scalar_one_or_none (
        change_if-stable (has_email email) (has_id r.identifier) (link r.identifier) table
          (λ x. unfold link in refl)
        ∙ ap (change_if (has_email email) (link r.identifier)) (scalar-absent _ e)))
      (ap scalar_one_or_none (
        change_if-gain (has_email email) (has_supabase_id r.identifier) (link r.identifier) table
          (scalar-absent _ f) (λ x. unfold link in eq_refl r.identifier)
        ∙ ap (map (link r.identifier)) (scalar-one _ g)))
  where
    after : List UserProfile
    after = change_if (has_email email) (link r.identifier) table

-- A created profile is found by its id or its Supabase id.
created_again :
    (table : List UserProfile) (n m : String) (r : Request) (email : String)
    → id_result table r ≡ absent
    → supabase_result table r ≡ absent
    → resolve_user_profile (table ++ new_profile n r email ∷ []) m r
      ≡ resolved (new_profile n r email) (table ++ new_profile n r email ∷ [])
unfolding scalar_one_or_none new_profile
created_again table n m r email e f = elim (Bool-cases (str_eq n r.identifier)) [
  | inl t ↦
      by_id_lem after m r
        (ap scalar_one_or_none (id_rows ∙ keep_if-in (has_id r.identifier) _ [] t))
  | inr t ↦
      by_supabase_lem after m r
        (ap scalar_one_or_none (id_rows ∙ keep_if-out (has_id r.identifier) _ [] t))
        (ap scalar_one_or_none (
          keep_if-append (has_supabase_id r.identifier) table (new_profile n r email ∷ [])
          ∙ ap (λ xs. xs ++ keep_if (has_supabase_id r.identifier) (new_profile n r email ∷ []))
              (scalar-absent _ f)
          ∙ keep_if-in (has_supabase_id r.identifier) _ [] (eq_refl r.identifier)))
]
  where
    after : List UserProfile
    after = table ++ new_profile n r email ∷ []

    id_rows :
        keep_if (has_id r.identifier) after
        ≡ keep_if (has_id r.identifier) (new_profile n r email ∷ [])
    id_rows =
        keep_if-append (has_id r.identifier) table (new_profile n r email ∷ [])
        ∙ ap (λ xs. xs ++ keep_if (has_id r.identifier) (new_profile n r email ∷ []))
            (scalar-absent _ e)

same_result :
    {q p : UserProfile} {s after : List UserProfile} (m : String) (r : Request)
    → resolved q s ≡ resolved p after
    → resolve_user_profile s m r ≡ resolved q s
    → resolve_user_profile after m r ≡ resolved p after
same_result {q} {p} {s} {after} m r h k =
    let (a, b) = resolved-injective h in
    subst (λ z. resolve_user_profile z m r ≡ resolved p z) b
      (subst (λ x. resolve_user_profile s m r ≡ resolved x s) a k)

with_email-again :
    (table after : List UserProfile) (n m : String) (r : Request) (email : String) (p : UserProfile)
    → id_result table r ≡ absent
    → supabase_result table r ≡ absent
    → resolve_user_profile table m r ≡ with_email table m r email (email_result table email)
    → with_email table n r email (email_result table email) ≡ resolved p after
    → resolve_user_profile after m r ≡ resolved p after
unfolding with_email with_found
with_email-again table after n m r email p e f again h =
    elim (Scalar-cases (email_result table email)) [
      | inl g ↦ elim (Bool-cases r.auto_create) [
        | inl c ↦ same_result m r (rw (g, c) at h) (created_again table n m r email e f)
        | inr c ↦ absurd (lookup_error-ne-resolved (rw (g, c) at h))
      ]
      | inr (inl (q, g)) ↦ elim (Option-cases q.supabase_user_id) [
        | inl s ↦
            same_result m r (with_email_linking g s ∙ h) (linked_again table m r email q e f g)
        | inr (_, s) ↦
            same_result m r (with_email_linked n g s ∙ h) (again ∙ sym (with_email_linked m g s))
      ]
      | inr (inr g) ↦ absurd (multiple-ne-resolved (rw g at h))
    ]
  where
    lookup_error-ne-resolved :
        {x : UserProfile} {s : List UserProfile} → lookup_error ≡ resolved x s → ⊥
    lookup_error-ne-resolved k = ground (arith, k)

    multiple-ne-resolved :
        {x : UserProfile} {s : List UserProfile} → multiple_results_found ≡ resolved x s → ⊥
    multiple-ne-resolved k = ground (arith, k)

    with_email_linking :
        {q : UserProfile}
        → email_result table email ≡ one q
        → q.supabase_user_id ≡ none
        → resolved (link r.identifier q) (change_if (has_email email) (link r.identifier) table)
          ≡ with_email table n r email (email_result table email)
    with_email_linking {q} g s =
        sym (ap (with_email table n r email) g ∙ ap (with_found table r email q) s)

    with_email_linked :
        {q : UserProfile} {t : String} (k : String)
        → email_result table email ≡ one q
        → q.supabase_user_id ≡ some t
        → resolved q table ≡ with_email table k r email (email_result table email)
    with_email_linked {q} k g s =
        sym (ap (with_email table k r email) g ∙ ap (with_found table r email q) s)

by_email-blank :
    (table : List UserProfile) (n : String) (r : Request) (email : String)
    → str_eq email "" ≡ true
    → by_email table n r (some email) ≡ lookup_error
unfolding by_email
by_email-blank table n r email b = rw b refl

by_email-some :
    (table : List UserProfile) (n : String) (r : Request) (email : String)
    → str_eq email "" ≡ false
    → by_email table n r (some email) ≡ with_email table n r email (email_result table email)
unfolding by_email
by_email-some table n r email b = rw b refl

-- A request that was resolved is resolved again, whatever new id there is for it, to the same
-- profile, and the second call changes nothing.
pub resolve_user_profile-again :
    (table after : List UserProfile) (n m : String) (r : Request) (p : UserProfile)
    → resolve_user_profile table n r ≡ resolved p after
    → resolve_user_profile after m r ≡ resolved p after
unfolding by_email
resolve_user_profile-again table after n m r p h = elim (Scalar-cases (id_result table r)) [
  | inl e ↦ elim (Scalar-cases (supabase_result table r)) [
    | inl f ↦ elim (Option-cases r.email) [
      | inl missing ↦
          absurd (refused (sym (by_email_lem table n r e f ∙ ap (by_email table n r) missing) ∙ h))
      | inr (email, given) ↦ elim (Bool-cases (str_eq email "")) [
        | inl b ↦ absurd (
            refused (
              sym (
                by_email_lem table n r e f
                ∙ ap (by_email table n r) given
                ∙ by_email-blank table n r email b)
              ∙ h))
        | inr b ↦
            with_email-again table after n m r email p e f
              (by_email_lem table m r e f
                ∙ ap (by_email table m r) given
                ∙ by_email-some table m r email b)
              (sym (
                  by_email_lem table n r e f
                  ∙ ap (by_email table n r) given
                  ∙ by_email-some table n r email b)
                ∙ h)
      ]
    ]
    | inr (inl (q, f)) ↦
        same_result m r (sym (by_supabase_lem table n r e f) ∙ h) (by_supabase_lem table m r e f)
    | inr (inr f) ↦ absurd (multiple (sym (several_lem table n r (inr (e, f))) ∙ h))
  ]
  | inr (inl (q, e)) ↦ same_result m r (sym (by_id_lem table n r e) ∙ h) (by_id_lem table m r e)
  | inr (inr e) ↦ absurd (multiple (sym (several_lem table n r (inl e)) ∙ h))
]
  where
    multiple : multiple_results_found ≡ resolved p after → ⊥
    multiple k = ground (arith, k)

    refused : lookup_error ≡ resolved p after → ⊥
    refused k = ground (arith, k)
