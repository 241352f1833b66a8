-- ===== src/Vtr/Texts.antt =====
-- The texts that speech is searched for: `texts` and `GetText` of internal/voice/vtr/lctzn.go.
-- `GetText` reads the first column of the table, en-US, so that the others are never used.
use vic_cloudless.Prelude.Text.{Text, codes}

-- The constants `STR_…`, without their prefix.
pub data Key : Type 0 where
  weather_in weather_forecast weather_tomorrow weather_the_day_after_tomorrow weather_tonight : Key
  weather_this_afternoon eye_color_purple eye_color_blue eye_color_sapphire eye_color_yellow : Key
  eye_color_teal eye_color_teal2 eye_color_green eye_color_orange me self volume_low : Key
  volume_quiet volume_medium_low volume_medium volume_normal volume_regular volume_medium_high : Key
  volume_high volume_loud volume_mute volume_nothing volume_silent volume_off volume_zero : Key
  name_is name_is2 name_is3 for zero one two three four five six seven eight nine ten eleven : Key
  twelve thirteen fourteen fifteen sixteen seventeen eighteen nineteen twenty thirty fourty : Key
  fifty sixty seventy eighty ninety one_hundred one_hour one_hour_alt hour minute second : Key

unfoldable pub get_text : Key → Text
get_text Key.weather_in = codes " in "
get_text Key.weather_forecast = codes "forecast"
get_text Key.weather_tomorrow = codes "tomorrow"
get_text Key.weather_the_day_after_tomorrow = codes "day after tomorrow"
get_text Key.weather_tonight = codes "tonight"
get_text Key.weather_this_afternoon = codes "afternoon"
get_text Key.eye_color_purple = codes "purple"
get_text Key.eye_color_blue = codes "blue"
get_text Key.eye_color_sapphire = codes "sapphire"
get_text Key.eye_color_yellow = codes "yellow"
get_text Key.eye_color_teal = codes "teal"
get_text Key.eye_color_teal2 = codes "tell"
get_text Key.eye_color_green = codes "green"
get_text Key.eye_color_orange = codes "orange"
get_text Key.me = codes "me"
get_text Key.self = codes "self"
get_text Key.volume_low = codes "low"
get_text Key.volume_quiet = codes "quiet"
get_text Key.volume_medium_low = codes "medium low"
get_text Key.volume_medium = codes "medium"
get_text Key.volume_normal = codes "normal"
get_text Key.volume_regular = codes "regular"
get_text Key.volume_medium_high = codes "medium high"
get_text Key.volume_high = codes "high"
get_text Key.volume_loud = codes "loud"
get_text Key.volume_mute = codes "mute"
get_text Key.volume_nothing = codes "nothing"
get_text Key.volume_silent = codes "silent"
get_text Key.volume_off = codes "off"
get_text Key.volume_zero = codes "zero"
get_text Key.name_is = codes " is "
get_text Key.name_is2 = codes "'s"
get_text Key.name_is3 = codes "names"
get_text Key.for = codes " for "
get_text Key.zero = codes "zero"
get_text Key.one = codes "one"
get_text Key.two = codes "two"
get_text Key.three = codes "three"
get_text Key.four = codes "four"
get_text Key.five = codes "five"
get_text Key.six = codes "six"
get_text Key.seven = codes "seven"
get_text Key.eight = codes "eight"
get_text Key.nine = codes "nine"
get_text Key.ten = codes "ten"
get_text Key.eleven = codes "eleven"
get_text Key.twelve = codes "twelve"
get_text Key.thirteen = codes "thirteen"
get_text Key.fourteen = codes "fourteen"
get_text Key.fifteen = codes "fifteen"
get_text Key.sixteen = codes "sixteen"
get_text Key.seventeen = codes "seventeen"
get_text Key.eighteen = codes "eighteen"
get_text Key.nineteen = codes "nineteen"
get_text Key.twenty = codes "twenty"
get_text Key.thirty = codes "thirty"
get_text Key.fourty = codes "fourty"
get_text Key.fifty = codes "fifty"
get_text Key.sixty = codes "sixty"
get_text Key.seventy = codes "seventy"
get_text Key.eighty = codes "eighty"
get_text Key.ninety = codes "ninety"
get_text Key.one_hundred = codes "one hundred"
get_text Key.one_hour = codes "one hour"
get_text Key.one_hour_alt = codes "an hour"
get_text Key.hour = codes "hour"
get_text Key.minute = codes "minute"
get_text Key.second = codes "second"
