-- ===== src/Quality/Pending.antt =====
-- The points of internal/forecastquality/quality.go that wait for their observation.
use hpa_plus.Prelude.{
  ℤ, pos, ltb_ℤ, leb_ℤ, ◌==ℤ◌, ◌-ℤ◌, ℕ, zero, suc, ◌-◌, ltb, length, same_text, String, Bool, false,
  not, ◌&&◌, ◌||◌, List, [], ◌∷◌, Option, none, some, if◌then◌else◌,
}
use hpa_plus.Forecast.Types.{Clock}
use hpa_plus.Validation.Checks.{is_given}
use hpa_plus.Quality.Types.{ForecastVerification}

abbrev pub max_pending : ℕ
max_pending = 128

abbrev pub day : ℤ
day = pos 86400000000000

-- A time that does not parse is Go's zero time.
abbrev pub time_of : Clock → String → ℤ
time_of clock text = elim (clock.parse text) [ none ↦ pos 0 | some t ↦ t ]

abbrev pub parses : Clock → String → Bool
parses clock text = is_given (clock.parse text)

unfoldable pub valid_verification : Clock → ForecastVerification → Bool
valid_verification clock p =
    let start = time_of clock p.at in
    let end = time_of clock p.until in
    parses clock p.at
    && parses clock p.until
    && parses clock p.issued_at
    && not (start ==ℤ pos 0)
    && ltb_ℤ (time_of clock p.issued_at) start
    && ltb_ℤ start end
    && leb_ℤ (end -ℤ start) day
    && leb_ℤ (pos 0) p.cpu
    && ltb_ℤ (pos 0) p.lead_milliseconds

-- In the order of their starts. sort.Slice leaves the order of equal starts open.
unfoldable pub insert_point :
    Clock → ForecastVerification → List ForecastVerification → List ForecastVerification
insert_point clock p [] = p ∷ []
insert_point clock p (q ∷ rest) =
    if ltb_ℤ (time_of clock p.at) (time_of clock q.at)
    then p ∷ q ∷ rest
    else q ∷ insert_point clock p rest

unfoldable pub sort_points : Clock → List ForecastVerification → List ForecastVerification
sort_points clock [] = []
sort_points clock (p ∷ rest) = insert_point clock p (sort_points clock rest)

abbrev pub drop {ℓ} : {A : Type ℓ} → ℕ → List A → List A
drop zero xs = xs
drop (suc n) [] = []
drop (suc n) (x ∷ xs) = drop n xs

-- The last n.
unfoldable pub keep_last {ℓ} : {A : Type ℓ} → ℕ → List A → List A
keep_last n xs = if ltb n (length xs) then drop (length xs - n) xs else xs

unfoldable pub has_start : String → List ForecastVerification → Bool
has_start at [] = false
has_start at (p ∷ rest) = same_text p.at at || has_start at rest

-- The intervals that are still ahead, and the first that holds `at` and starts no earlier than
-- `last_end`.
unfoldable pub scan_pending :
    Clock
    → ℤ
    → ℤ
    → Option ForecastVerification
    → List ForecastVerification
    → List ForecastVerification × Option ForecastVerification
scan_pending clock at last_end found [] = ([], found)
scan_pending clock at last_end found (p ∷ rest) =
    let start = time_of clock p.at in
    let ended = leb_ℤ (time_of clock p.until) at in
    let takes = not ended && leb_ℤ start at && not (is_given found) && leb_ℤ last_end start in
    let others = scan_pending clock at last_end (if takes then some p else found) rest in
    if ended || leb_ℤ start at then others else (p ∷ others.0, others.1)
