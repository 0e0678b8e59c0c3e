-- ===== src/Japan/Tests.antt =====
-- Numerals, amounts and addresses at concrete texts.
use real_estate_agent.Japan.Ordinals.{kanji_ordinal_to_int, int_to_kanji_ordinal, index_error}
use real_estate_agent.Japan.Ordinals.Reading.{
  int_to_kanji_ordinal-reads, int_to_kanji_ordinal-index_error_iff,
}
use real_estate_agent.Japan.Money.{format_ja, MoneyJpy}
use real_estate_agent.Japan.Money.Reading.{read_ja, read_ja-format_ja}
use real_estate_agent.Japan.Address.{take_ward, canonical, NormalizedAddress}
use real_estate_agent.Common.Int.{pos}
use real_estate_agent.Common.{◌≤◌, String, ◌≡◌, refl, ◌↔◌, inl, inr, none, some, arith}
use real_estate_agent.Common.Show.{show_grouped}

int_to_kanji_ordinal-reads_example :
    (s : String) × (int_to_kanji_ordinal (pos 47) ≡ inr s) × (kanji_ordinal_to_int s ≡ some 47)
int_to_kanji_ordinal-reads_example = int_to_kanji_ordinal-reads 47 (omega arith) (omega arith)

int_to_kanji_ordinal-index_error_iff_example :
    (int_to_kanji_ordinal (pos 100) ≡ inl index_error) ↔ (100 ≤ 100)
int_to_kanji_ordinal-index_error_iff_example = int_to_kanji_ordinal-index_error_iff 100

abbrev amount_of_tests : MoneyJpy
amount_of_tests = record { amount = 100_005_000 }

read_ja-format_ja_example : read_ja 0 0 (format_ja amount_of_tests) ≡ some 100_005_000
read_ja-format_ja_example = read_ja-format_ja amount_of_tests

-- The empty unit of ten thousand is printed.
printed_zero : format_ja amount_of_tests ≡ "1億0万5,000円"
unfolding format_ja show_grouped
printed_zero = refl

wards : take_ward "港区六本木" ≡ some ("港区", "六本木")
unfolding take_ward
wards = refl

abbrev address : NormalizedAddress
address = record {
  todoufuken = some "東京都";
  shikuchouson = some "港区";
  chome = some "六本木六丁目";
  banchi = some "10";
  go = some "1";
  building = none;
  todoufuken_code = some "13";
  shichouson_code = some "13103";
}

joined : canonical address ≡ "東京都 港区 六本木六丁目 10-1"
unfolding canonical
joined = refl
