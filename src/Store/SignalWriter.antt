-- ===== src/Store/SignalWriter.antt =====
-- services/signal_writer.py: the writer of the `market_signals` table. Times are microseconds.
pub mod Upsert
use real_estate_agent.Common.Json.{Json, dict_or_empty}
use real_estate_agent.Store.Rows.{change_if}
use real_estate_agent.Common.Dict.{Dict}
use real_estate_agent.Common.{
  ℕ, ◌+◌, ◌*◌, ◌/◌, String, Bool, ◌&&◌, Option, none, some, List, [], ◌∷◌, ◌++◌, str_eq, leb,
  keep_if,
}
use real_estate_agent.Outcomes.{Datetime, naive, aware}

pub record MarketSignal {ℓ} (F : Type ℓ) : Type ℓ where
  pub signal_type : String
  pub subject_type : String
  pub subject_id : String
  pub value : Option F
  pub payload : Option (Dict String (Json F))
  pub source : Option String
  pub observed_at : ℕ

-- The arguments of `upsert_signal`.
pub record SignalInput {ℓ} (F : Type ℓ) : Type ℓ where
  pub signal_type : String
  pub subject_type : String
  pub subject_id : String
  pub observed_at : Datetime
  pub value : Option F
  pub payload : Option (Dict String (Json F))
  pub source : Option String

-- `multiple_results_found` is the exception of `scalar_one_or_none` on two rows or more.
pub data Upserted {ℓ} (F : Type ℓ) : Type ℓ where
  written : MarketSignal F → List (MarketSignal F) → Upserted F
  multiple_results_found : Upserted F

-- `_as_naive_utc`
unfoldable pub as_naive_utc : Datetime → ℕ
as_naive_utc (naive t) = t
as_naive_utc (aware t) = t

abbrev pub day_length : ℕ
day_length = 86_400_000_000

unfoldable pub day_start : ℕ → ℕ
day_start t = t / day_length * day_length

-- 23:59:59.999999 of the day.
unfoldable pub day_end : ℕ → ℕ
day_end t = t / day_length * day_length + 86_399_999_999

module _ {ℓ} {F : Type ℓ} where
  -- The condition of the query.
  unfoldable pub in_day : String → String → String → ℕ → ℕ → MarketSignal F → Bool
  in_day signal_type subject_type subject_id first last row =
      str_eq row.signal_type signal_type
      && (str_eq row.subject_type subject_type
          && (str_eq row.subject_id subject_id
              && (leb first row.observed_at && leb row.observed_at last)))

  unfoldable pub updated : SignalInput F → MarketSignal F → MarketSignal F
  updated new existing = record existing {
    value = new.value;
    payload = some (dict_or_empty new.payload);
    observed_at = as_naive_utc new.observed_at;
    source = or_source new.source existing.source;
  }
    where
      or_source : Option String → Option String → Option String
      or_source none old = old
      or_source (some s) old = some s

  unfoldable pub inserted : SignalInput F → MarketSignal F
  inserted new = record {
    signal_type = new.signal_type;
    subject_type = new.subject_type;
    subject_id = new.subject_id;
    value = new.value;
    payload = some (dict_or_empty new.payload);
    source = new.source;
    observed_at = as_naive_utc new.observed_at;
  }

  -- The rows of the day of the input.
  abbrev pub is_match : SignalInput F → MarketSignal F → Bool
  is_match new =
      let t = as_naive_utc new.observed_at in
      in_day new.signal_type new.subject_type new.subject_id (day_start t) (day_end t)

  -- What is done with the rows that `scalar_one_or_none` gets.
  unfoldable pub write_row :
      List (MarketSignal F) → SignalInput F → List (MarketSignal F) → Upserted F
  unfolding updated inserted as_naive_utc
  write_row table new [] = written (inserted new) (table ++ inserted new ∷ [])
  write_row table new (row ∷ []) =
      written (updated new row) (change_if (is_match new) (updated new) table)
  write_row table new (row ∷ other ∷ rows) = multiple_results_found

  unfoldable pub upsert_signal : List (MarketSignal F) → SignalInput F → Upserted F
  unfolding write_row in_day
  upsert_signal table new = write_row table new (keep_if (is_match new) table)
