-- ===== src/Store/Tests.antt =====
-- Concrete runs of the services that keep tables.
use real_estate_agent.Common.Sort.{sort_stable}
use real_estate_agent.Store.MarketState.Batch.{build_snapshots-build_snapshot}
use real_estate_agent.Store.EventStore.Sequence.{get_events-append_all, append_all}
use real_estate_agent.Store.UserResolve.Again.{resolve_user_profile-again}
use real_estate_agent.Store.SignalWriter.Upsert.{upsert_signal-Replaces, Replaces, IsDaily}
use real_estate_agent.Common.Dict.{assign, string_key, get}
use real_estate_agent.Common.Int.{pos}
use real_estate_agent.Store.MarketState.Build.{build_snapshots, build_snapshot}
use real_estate_agent.Common.Json.{dict_or_empty, Json}
use real_estate_agent.Common.{ℕ, String, ◌≡◌, refl, true, none, some, List, [], ◌∷◌, arith, OnSome}
use real_estate_agent.Float.Fixed.{Fixed, num, fixed_float}
use real_estate_agent.Store.EventStore.{event_with, get_events, NewEvent}
use real_estate_agent.Store.SignalWriter.{
  day_end, day_start, as_naive_utc, written, updated, upsert_signal, MarketSignal, SignalInput,
}
use real_estate_agent.Store.UserResolve.{
  new_profile, link, resolve_user_profile, UserProfile, Request, resolved,
}
use real_estate_agent.Store.MarketState.Compose.{read_field, Property}
use real_estate_agent.Outcomes.{aware}

abbrev request : String → String → ℕ → NewEvent ℕ
request event_type aggregate_id now = record {
  event_type = event_type;
  aggregate_type = "negotiation";
  aggregate_id = aggregate_id;
  payload = 0;
  actor_type = none;
  actor_id = none;
  correlation_id = some "c";
  now = now;
}

abbrev requests : List (NewEvent ℕ)
requests = request "opened" "n1" 5 ∷ request "opened" "n2" 6 ∷ request "closed" "n1" 7 ∷ []

get_events-append_all_example :
    get_events (append_all [] requests) "negotiation" "n1"
    ≡ event_with 1 (request "opened" "n1" 5) ∷ event_with 2 (request "closed" "n1" 7) ∷ []
get_events-append_all_example = get_events-append_all requests "negotiation" "n1"

abbrev rent_row : MarketSignal Fixed
rent_row = record {
  signal_type = "median_rent";
  subject_type = "neighborhood";
  subject_id = "13103";
  value = none;
  payload = none;
  source = some "backfill";
  observed_at = 100;
}

abbrev rent_input : SignalInput Fixed
rent_input = record {
  signal_type = "median_rent";
  subject_type = "neighborhood";
  subject_id = "13103";
  observed_at = aware 900;
  value = some (num (pos 3));
  payload = none;
  source = none;
}

abbrev rent_written : MarketSignal Fixed
rent_written = record rent_row { value = some (num (pos 3)); payload = some []; observed_at = 900 }

one_row-IsDaily : IsDaily (rent_row ∷ [])
one_row-IsDaily type subject id day = ground arith

upsert_signal-Replaces_example :
    (row : MarketSignal Fixed) × (after : List (MarketSignal Fixed)) × (upsert_signal
        (rent_row ∷ [])
        rent_input
      ≡ written row after)
    × IsDaily after
    × Replaces rent_input row (rent_row ∷ []) after
upsert_signal-Replaces_example = upsert_signal-Replaces (rent_row ∷ []) rent_input one_row-IsDaily

updated_in_place :
    upsert_signal (rent_row ∷ []) rent_input ≡ written rent_written (rent_written ∷ [])
unfolding upsert_signal updated as_naive_utc day_start day_end dict_or_empty
updated_in_place = refl

abbrev ann : UserProfile
ann = record {
  id = "u1";
  supabase_user_id = none;
  name = "Ann";
  email = "ann@example.com";
  role = "buyer";
}

abbrev sign_in : Request
sign_in = record {
  identifier = "sub-1";
  email = some "ann@example.com";
  name = none;
  auto_create = true;
}

abbrev linked_ann : UserProfile
linked_ann = record ann { supabase_user_id = some "sub-1" }

first_sign_in : resolve_user_profile (ann ∷ []) "u2" sign_in ≡ resolved linked_ann (linked_ann ∷ [])
unfolding resolve_user_profile link
first_sign_in = refl

resolve_user_profile-again_example :
    resolve_user_profile (linked_ann ∷ []) "u3" sign_in ≡ resolved linked_ann (linked_ann ∷ [])
resolve_user_profile-again_example =
    resolve_user_profile-again (ann ∷ []) (linked_ann ∷ []) "u2" "u3" sign_in linked_ann
      first_sign_in

created_name :
    resolve_user_profile [] "u9" sign_in
    ≡ resolved
        (record {
          id = "u9";
          supabase_user_id = some "sub-1";
          name = "ann";
          email = "ann@example.com";
          role = "buyer";
        })
        (record {
          id = "u9";
          supabase_user_id = some "sub-1";
          name = "ann";
          email = "ann@example.com";
          role = "buyer";
        }
          ∷ [])
unfolding resolve_user_profile new_profile
created_name = refl

abbrev tower : Property Fixed
tower = record {
  id = "p1";
  jurisdiction = some "jp";
  youto_chiiki = none;
  ward_code = some "13103";
  neighborhood_data = none;
  hazard_flags = none;
}

abbrev shown : Json Fixed → String
shown v = "x"

build_snapshots-build_snapshot_example :
    get (build_snapshots shown (rent_written ∷ []) (tower ∷ [])) "p1"
    ≡ build_snapshot shown (tower ∷ []) (rent_written ∷ []) "p1"
build_snapshots-build_snapshot_example =
    build_snapshots-build_snapshot shown (λ v h. refl) (rent_written ∷ []) (tower ∷ []) "p1"
      (refl, tt) (refl, tt)

rent_of_ward :
    OnSome
      (λ s. s.median_rent ≡ some (num (pos 3)))
      (build_snapshot shown (tower ∷ []) (rent_written ∷ []) "p1")
unfolding build_snapshot read_field get assign sort_stable
rent_of_ward = refl
