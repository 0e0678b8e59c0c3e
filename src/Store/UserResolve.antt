-- ===== src/Store/UserResolve.antt =====
-- services/user_resolve.py: the profile of an identifier, by id, by Supabase id or by e-mail, which
-- links it, or created.
pub mod Again
use Prim.Native.Char.{code}
use real_estate_agent.Store.Rows.{absent, one, several}
use real_estate_agent.Store.Rows.{change_if, one, Scalar, scalar_one_or_none}
use real_estate_agent.Common.{
  String, Bool, false, Option, none, some, List, [], ◌∷◌, ◌++◌, str_eq, ◌==◌, if◌then◌else◌,
  keep_if,
}

-- The columns of `UserProfile` that are read or given.
pub record UserProfile : Type 0 where
  pub id : String
  pub supabase_user_id : Option String
  pub name : String
  pub email : String
  pub role : String

-- The arguments of `resolve_user_profile`.
pub record Request : Type 0 where
  pub identifier : String
  pub email : Option String
  pub name : Option String
  pub auto_create : Bool

pub data Resolved : Type 0 where
  resolved : UserProfile → List UserProfile → Resolved
  lookup_error : Resolved
  multiple_results_found : Resolved

abbrev pub has_id : String → UserProfile → Bool
has_id s p = str_eq p.id s

abbrev pub option_is : String → Option String → Bool
option_is s none = false
option_is s (some t) = str_eq t s

abbrev pub has_supabase_id : String → UserProfile → Bool
has_supabase_id s p = option_is s p.supabase_user_id

abbrev pub has_email : String → UserProfile → Bool
has_email s p = str_eq p.email s

-- `email.split("@")[0]`
unfoldable pub before_at : String → String
before_at String.[] = String.[]
before_at (String.◌∷◌ c s) =
    let rest = before_at s in if code c == 64 then String.[] else String.◌∷◌ c rest

-- `name or email.split("@")[0]`
unfoldable pub display_name : Option String → String → String
unfolding before_at
display_name none email = before_at email
display_name (some name) email = if str_eq name "" then before_at email else name

unfoldable pub link : String → UserProfile → UserProfile
link identifier p = record p { supabase_user_id = some identifier }

-- `new_id` is the identifier that the column's default generates.
unfoldable pub new_profile : String → Request → String → UserProfile
unfolding display_name
new_profile new_id r email = record {
  id = new_id;
  supabase_user_id = some r.identifier;
  name = display_name r.name email;
  email = email;
  role = "buyer";
}

-- A profile without a Supabase id gets the identifier.
unfoldable pub with_found :
    List UserProfile → Request → String → UserProfile → Option String → Resolved
unfolding link
with_found table r email p none =
    resolved (link r.identifier p) (change_if (has_email email) (link r.identifier) table)
with_found table r email p (some _) = resolved p table

unfoldable pub with_email :
    List UserProfile → String → Request → String → Scalar UserProfile → Resolved
unfolding with_found new_profile
with_email table new_id r email absent =
    let profile = new_profile new_id r email in
    if r.auto_create then resolved profile (table ++ profile ∷ []) else lookup_error
with_email table new_id r email (one p) = with_found table r email p p.supabase_user_id
with_email table new_id r email several = multiple_results_found

unfoldable pub by_email : List UserProfile → String → Request → Option String → Resolved
unfolding with_email scalar_one_or_none
by_email table new_id r none = lookup_error
by_email table new_id r (some email) =
    if str_eq email ""
    then lookup_error
    else with_email table new_id r email (scalar_one_or_none (keep_if (has_email email) table))

-- The row that a query gives, or what comes after it.
unfoldable pub found_or : List UserProfile → Scalar UserProfile → Resolved → Resolved
found_or table absent rest = rest
found_or table (one p) rest = resolved p table
found_or table several rest = multiple_results_found

unfoldable pub resolve_user_profile : List UserProfile → String → Request → Resolved
unfolding found_or by_email scalar_one_or_none
resolve_user_profile table new_id r =
    found_or table (scalar_one_or_none (keep_if (has_id r.identifier) table)) (
      found_or table (scalar_one_or_none (keep_if (has_supabase_id r.identifier) table))
        (by_email table new_id r r.email))

-- The id in place of the profile.
pub data ResolvedId : Type 0 where
  resolved_id : String → List UserProfile → ResolvedId
  id_lookup_error : ResolvedId
  id_multiple_results_found : ResolvedId

unfoldable pub resolve_user_id : List UserProfile → String → Request → ResolvedId
unfolding resolve_user_profile
resolve_user_id table new_id r = elim (resolve_user_profile table new_id r) [
  | resolved p after ↦ resolved_id p.id after
  | lookup_error ↦ id_lookup_error
  | multiple_results_found ↦ id_multiple_results_found
]
