-- ===== src/Server/Configuration/Clock.antt =====
-- server/parse/rules.y: the value of a condition, which is a number or the time of a day.
use cofi_ty_home.Common.{
  ℕ, suc, Bool, false, ◌||◌, [], ◌∷◌, ◌++◌, ◌==◌, if◌then◌else◌, ltb, Text, length,
}
use cofi_ty_home.Common.Int.{ℤ, pos, ltb_ℤ}
use cofi_ty_home.Server.Configuration.{Config, Parser}

abbrev pub yyerror : Config → Config
yyerror c = record c { parsed_flag = false }

-- The loop over the characters: `h` and `m` take two characters each, an `h` leads to the minutes.
unfoldable pub split_time : Text → ℕ → Text → ℕ → Text → Text × Text
split_time [] hi h mi m = (h, m)
split_time (b ∷ t) hi h mi m =
    let marked = split_time t 42 h mi m in
    let hour = split_time t (suc hi) (h ++ b ∷ []) mi m in
    let minute = split_time t hi h (suc mi) (m ++ b ∷ []) in
    let skipped = split_time t hi h mi m in
    if b == b'h' || b == b'H'
    then marked
    else if ltb hi 2
    then hour
    else if ltb mi 2
    then minute
    else skipped

abbrev pub out_of_day : ℤ → ℤ → Bool
out_of_day hi mi = ltb_ℤ hi (pos 0) || ltb_ℤ (pos 23) hi || ltb_ℤ mi (pos 0) || ltb_ℤ (pos 59) mi

abbrev pub warn : Bool → Config → Config
warn b c = if b then yyerror c else c

-- An error is noted, and the value is computed all the same.
unfoldable pub time_value : Parser → Text → Config → Config × ℤ
unfolding split_time
time_value p text c =
    let (h, m) = split_time text 0 [] 0 [] in
    let hi = p.atoi h in
    let mi = p.atoi m in (warn (out_of_day hi mi) (warn (ltb 5 (length text)) c), p.mktime hi mi)
