-- ===== src/Japan/Address.antt =====
-- services/address_jp.py: the normalized address, its canonical text, and the prefectures and wards
-- at the start of an address.
use real_estate_agent.Common.{
  ℕ, suc, String, Option, none, some, List, [], ◌∷◌, ◌++◌, str_eq, ltb, ◌==◌, if◌then◌else◌,
}
use real_estate_agent.Common.Dict.{Dict, keys, string_key}
use real_estate_agent.Common.Sort.{sort_stable}
use Prim.Native.Char.{code}
use Prim.Native.String.{◌++◌ as ◌⊕◌}

pub record NormalizedAddress : Type 0 where
  pub todoufuken : Option String
  pub shikuchouson : Option String
  pub chome : Option String
  pub banchi : Option String
  pub go : Option String
  pub building : Option String
  pub todoufuken_code : Option String
  pub shichouson_code : Option String

-- The truthy texts of a list of optional ones.
abbrev pub present : List (Option String) → List String
present [] = []
present (none ∷ os) = present os
present (some s ∷ os) = if str_eq s "" then present os else s ∷ present os

-- `separator.join(texts)`
unfoldable pub join_with : String → List String → String
join_with separator [] = ""
join_with separator (s ∷ []) = s
join_with separator (s ∷ t ∷ ts) = s ⊕ separator ⊕ join_with separator (t ∷ ts)

abbrev pub joined_tail : List String → List String
joined_tail [] = []
joined_tail (t ∷ ts) = join_with "-" (t ∷ ts) ∷ []

unfoldable pub canonical : NormalizedAddress → String
unfolding join_with
canonical a =
    let parts = present (a.todoufuken ∷ a.shikuchouson ∷ a.chome ∷ []) in
    let tail = joined_tail (present (a.banchi ∷ a.go ∷ [])) in
    join_with " " (parts ++ tail ++ present (a.building ∷ []))

-- `s.startswith(p)`, and then `s[len(p):]`.
unfoldable pub after_prefix : String → String → Option String
after_prefix String.[] s = some s
after_prefix (String.◌∷◌ c p) String.[] = none
after_prefix (String.◌∷◌ c p) (String.◌∷◌ x s) =
    let rest = after_prefix p s in if code c == code x then rest else none

-- `_take_prefecture` and `_take_ward` on a table, with what follows the match.
unfoldable pub take_first : List String → String → Option (String × String)
unfolding after_prefix
take_first [] s = none
take_first (p ∷ ps) s =
    let later = take_first ps s in
    elim (after_prefix p s) [ none ↦ later | some rest ↦ some (p, rest) ]

abbrev pub prefectures : List String
prefectures =
    "北海道" ∷ "東京都" ∷ "京都府" ∷ "大阪府" ∷ "青森県" ∷ "岩手県" ∷ "宮城県" ∷ "秋田県" ∷ "山形県" ∷ "福島県" ∷ "茨城県" ∷ "栃木県"
    ∷ "群馬県" ∷ "埼玉県" ∷ "千葉県" ∷ "神奈川県" ∷ "新潟県" ∷ "富山県" ∷ "石川県" ∷ "福井県" ∷ "山梨県" ∷ "長野県" ∷ "岐阜県" ∷ "静岡県"
    ∷ "愛知県" ∷ "三重県" ∷ "滋賀県" ∷ "兵庫県" ∷ "奈良県" ∷ "和歌山県" ∷ "鳥取県" ∷ "島根県" ∷ "岡山県" ∷ "広島県" ∷ "山口県" ∷ "徳島県"
    ∷ "香川県" ∷ "愛媛県" ∷ "高知県" ∷ "福岡県" ∷ "佐賀県" ∷ "長崎県" ∷ "熊本県" ∷ "大分県" ∷ "宮崎県" ∷ "鹿児島県" ∷ "沖縄県" ∷ []

abbrev pub tokyo23_ward_codes : Dict String String
tokyo23_ward_codes =
    ("千代田区", "13101")
    ∷ ("中央区", "13102")
    ∷ ("港区", "13103")
    ∷ ("新宿区", "13104")
    ∷ ("文京区", "13105")
    ∷ ("台東区", "13106")
    ∷ ("墨田区", "13107")
    ∷ ("江東区", "13108")
    ∷ ("品川区", "13109")
    ∷ ("目黒区", "13110")
    ∷ ("大田区", "13111")
    ∷ ("世田谷区", "13112")
    ∷ ("渋谷区", "13113")
    ∷ ("中野区", "13114")
    ∷ ("杉並区", "13115")
    ∷ ("豊島区", "13116")
    ∷ ("北区", "13117")
    ∷ ("荒川区", "13118")
    ∷ ("板橋区", "13119")
    ∷ ("練馬区", "13120")
    ∷ ("足立区", "13121")
    ∷ ("葛飾区", "13122")
    ∷ ("江戸川区", "13123")
    ∷ []

abbrev pub characters : String → ℕ
characters String.[] = 0
characters (String.◌∷◌ c s) = suc (characters s)

-- `_WARDS_SORTED`
unfoldable pub wards_sorted : List String
unfolding sort_stable
wards_sorted = sort_stable (λ a b. ltb (characters a) (characters b)) (keys tokyo23_ward_codes)

unfoldable pub take_prefecture : String → Option (String × String)
unfolding take_first
take_prefecture s = take_first prefectures s

unfoldable pub take_ward : String → Option (String × String)
unfolding take_first wards_sorted
take_ward s = take_first wards_sorted s
