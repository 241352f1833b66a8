-- ===== src/Vtr/Numbers.antt =====
-- Numbers in speech: `mapTextToNumber` and `words2num` of internal/voice/vtr/param.go. The regular
-- expression is a parameter, as the list of pairs (number, unit) that it finds. An int has 32 bits,
-- as on the robot; a value is its bit pattern.
use vic_cloudless.Prelude.{
  ap, leb, ltb, if◌then◌else◌, ℕ, zero, suc, ◌+◌, ◌-◌, ◌*◌, ◌/◌, ◌%◌, ◌<◌, ◌≡◌, refl, sym, ◌∙◌,
  Bool, ◌&&◌, ◌||◌, Option, none, some, List, [], ◌∷◌, ◌++◌, arith,
}
use vic_cloudless.Prelude.Text.{
  contains, Without, codes, split-append, split-Without, Text, to_lower, split, text_eq,
}
use vic_cloudless.Vtr.Texts.{Key, get_text}

abbrev Table : Type 0
Table = List (Text × ℕ)

-- `textToNumber`, as `initializeTextToNumberwithCurrentLocalization` fills it.
text_to_number : Table
unfolding get_text
text_to_number =
    (get_text Key.zero, 0)
    ∷ (get_text Key.one, 1)
    ∷ (get_text Key.two, 2)
    ∷ (get_text Key.three, 3)
    ∷ (get_text Key.four, 4)
    ∷ (get_text Key.five, 5)
    ∷ (get_text Key.six, 6)
    ∷ (get_text Key.seven, 7)
    ∷ (get_text Key.eight, 8)
    ∷ (get_text Key.nine, 9)
    ∷ (get_text Key.ten, 10)
    ∷ (get_text Key.eleven, 11)
    ∷ (get_text Key.twelve, 12)
    ∷ (get_text Key.thirteen, 13)
    ∷ (get_text Key.fourteen, 14)
    ∷ (get_text Key.fifteen, 15)
    ∷ (get_text Key.sixteen, 16)
    ∷ (get_text Key.seventeen, 17)
    ∷ (get_text Key.eighteen, 18)
    ∷ (get_text Key.nineteen, 19)
    ∷ (get_text Key.twenty, 20)
    ∷ (get_text Key.thirty, 30)
    ∷ (get_text Key.fourty, 40)
    ∷ (get_text Key.fifty, 50)
    ∷ (get_text Key.sixty, 60)
    ∷ (get_text Key.seventy, 70)
    ∷ (get_text Key.eighty, 80)
    ∷ (get_text Key.ninety, 90)
    ∷ (get_text Key.one_hundred, 100)
    ∷ []

find : Text → Table → Option ℕ
find t [] = none
find t ((k, n) ∷ rest) = if text_eq t k then some n else find t rest

-- A part that is not in the table adds nothing.
abbrev part_value : Option ℕ → ℕ
part_value none = 0
part_value (some n) = n

sum_parts : List Text → ℕ
unfolding find
sum_parts [] = 0
sum_parts (p ∷ ps) = part_value (find p text_to_number) + sum_parts ps

abbrev whole_or_parts : Option ℕ → List Text → ℕ
whole_or_parts (some n) parts = n
whole_or_parts none parts = sum_parts parts

unfoldable pub map_text_to_number : Text → ℕ
unfolding text_to_number find sum_parts
map_text_to_number text = whole_or_parts (find text text_to_number) (split b'-' text)

abbrev is_digit : ℕ → Bool
is_digit c = leb b'0' c && leb c b'9'

atoi_loop : Text → ℕ → Option ℕ
atoi_loop [] n = some n
atoi_loop (c ∷ s) n =
    let rest = atoi_loop s (10 * n + (c - b'0')) in if is_digit c then rest else none

abbrev max_int : ℕ
max_int = 2147483647

abbrev in_range : Option ℕ → Option ℕ
in_range none = none
in_range (some n) = if leb n max_int then some n else none

-- `strconv.Atoi`, on what the expression can match: letters, digits, `_` and `-`, with no sign in
-- front. An overflow is an error.
unfoldable pub atoi : Text → Option ℕ
unfolding atoi_loop
atoi [] = none
atoi (c ∷ s) = in_range (atoi_loop (c ∷ s) 0)

abbrev value_of : Text → Option ℕ → ℕ
value_of number (some n) = n
value_of number none = map_text_to_number number

-- The `switch` on the unit.
seconds_of : Text → ℕ → ℕ
unfolding get_text
seconds_of unit value =
    if text_eq unit (get_text Key.minute)
    then value * 60
    else if text_eq unit (get_text Key.second)
    then value
    else if text_eq unit (get_text Key.hour)
    then value * 3600
    else 0

abbrev wrap : ℕ → ℕ
wrap n = n % 4294967296

unfoldable pub total_seconds : ℕ → List (Text × Text) → ℕ
unfolding seconds_of atoi map_text_to_number
total_seconds total [] = total
total_seconds total ((number, unit) ∷ rest) =
    total_seconds (wrap (total + seconds_of unit (value_of number (atoi number)))) rest

-- The printed decimal digits, with the number itself as fuel.
digits_loop : ℕ → ℕ → Text → Text
digits_loop zero n acc = acc
digits_loop (suc fuel) n acc =
    let more = digits_loop fuel (n / 10) ((b'0' + n % 10) ∷ acc) in
    if ltb n 10 then (b'0' + n) ∷ acc else more

unfoldable pub itoa : ℕ → Text
unfolding digits_loop
itoa n =
    if leb n max_int
    then digits_loop (suc n) n []
    else b'-' ∷ digits_loop (4294967296 - n) (4294967296 - n) []

module _ (find_all : Text → List (Text × Text)) where
  abbrev an_hour : Text → Bool
  an_hour input =
      contains input (get_text Key.one_hour) || contains input (get_text Key.one_hour_alt)

  unfoldable pub words2num : Text → Text
  unfolding total_seconds itoa
  words2num input =
      if an_hour (to_lower input)
      then codes "3600"
      else itoa (total_seconds 0 (find_all (to_lower input)))

-- The seconds of all matches together.
abbrev pub seconds_sum : List (Text × Text) → ℕ
unfolding seconds_of atoi map_text_to_number
seconds_sum [] = 0
seconds_sum ((number, unit) ∷ rest) =
    seconds_of unit (value_of number (atoi number)) + seconds_sum rest

total_seconds-wrap :
    (total : ℕ) (ms : List (Text × Text))
    → total < 4294967296
    → total_seconds total ms ≡ wrap (total + seconds_sum ms)
unfolding total_seconds
total_seconds-wrap total [] h = omega arith
total_seconds-wrap total ((number, unit) ∷ rest) h = omega (
  arith,
  total_seconds-wrap (wrap (total + seconds_of unit (value_of number (atoi number)))) rest
      (omega arith),
)

-- The seconds that are counted are the sum over all matches, modulo 2 ^ 32.
pub total_seconds-sum : (ms : List (Text × Text)) → total_seconds 0 ms ≡ seconds_sum ms % 4294967296
total_seconds-sum ms = omega (arith, total_seconds-wrap 0 ms (omega arith))

whole_or_parts-single :
    (w : Text) (o : Option ℕ) → find w text_to_number ≡ o → whole_or_parts o (w ∷ []) ≡ part_value o
unfolding sum_parts
whole_or_parts-single w none e = rw e refl
whole_or_parts-single w (some n) e = refl

map_text-plain :
    (w : Text) → Without b'-' w → map_text_to_number w ≡ part_value (find w text_to_number)
unfolding map_text_to_number
map_text-plain w h =
    ap (whole_or_parts (find w text_to_number)) (split-Without b'-' w h)
    ∙ whole_or_parts-single w (find w text_to_number) refl

abbrev pub forty : Text
forty = codes "forty"

find-forty : (w : Text) → find (forty ++ b'-' ∷ w) text_to_number ≡ none
unfolding find text_to_number get_text text_eq
find-forty w = refl

forty-Without : Without b'-' forty
forty-Without = (refl, (refl, (refl, (refl, (refl, tt)))))

forty-unknown : find forty text_to_number ≡ none
unfolding find text_to_number get_text text_eq
forty-unknown = refl

sum_parts_pair :
    (p q : Text)
    → find p text_to_number ≡ none
    → sum_parts (p ∷ q ∷ []) ≡ part_value (find q text_to_number)
unfolding sum_parts
sum_parts_pair p q e = rw e (omega arith)

map_text-parts :
    (t : Text) → find t text_to_number ≡ none → map_text_to_number t ≡ sum_parts (split b'-' t)
unfolding map_text_to_number
map_text-parts t e = ap (λ o. whole_or_parts o (split b'-' t)) e

forty_parts :
    (w : Text)
    → Without b'-' w
    → map_text_to_number (forty ++ b'-' ∷ w) ≡ part_value (find w text_to_number)
forty_parts w h =
    map_text-parts _ (find-forty w)
    ∙ ap sum_parts
        (split-append b'-' forty w forty-Without ∙ ap (λ ps. forty ∷ ps) (split-Without b'-' w h))
    ∙ sum_parts_pair forty w forty-unknown

-- "forty" counts for nothing, since the table spells it "fourty": "forty-five" is 5.
pub map_text_to_number-forty :
    (w : Text) → Without b'-' w → map_text_to_number (forty ++ b'-' ∷ w) ≡ map_text_to_number w
map_text_to_number-forty w h = forty_parts w h ∙ sym (map_text-plain w h)
