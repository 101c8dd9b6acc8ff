-- ===== src/Server/Configuration/Files.antt =====
-- server/parse/rules.y: `parseFile`, `parseAll`, `reparseFiles`, `clean`, and `cleanMemory` of
-- server/src/init.c as far as the lists go. Nothing is printed here.
use cofi_ty_home.Common.{ℕ, Bool, true, false, Option, none, some, [], if◌then◌else◌, Text, codes}
use cofi_ty_home.Common.Int.{ℤ, pos, eq_ℤ}
use cofi_ty_home.Server.Configuration.{
  ProgState, init, reloading, Config, Derivation, Parser, Parse, reduced, ended, corrupted,
  ◌then_parse◌,
}
use cofi_ty_home.Server.Configuration.Clock.{yyerror}
use cofi_ty_home.Server.Configuration.Reducing.{reduce_all}

-- `cleanMemory`.
abbrev pub emptied : Config → Config
emptied c = record c { sensors = []; actionneurs = []; actions = []; rules = []; untyped = false }

abbrev pub sensors_path : Text
sensors_path = codes "server/config/sensors"

abbrev pub actionneurs_path : Text
actionneurs_path = codes "server/config/actionneurs"

abbrev pub actions_path : Text
actions_path = codes "server/config/actions"

abbrev pub rules_path : Text
rules_path = codes "server/config/rules"

-- `file` if `p` is the number of its kind (`F_RULES`, `F_ACTIONS`, `F_ACTIONNEURS`, `F_SENSORS` are
-- 1 to 4), and the file that is on the disk otherwise.
abbrev pub path_for : ℕ → ℤ → Text → Text → Text
path_for kind p path file = if eq_ℤ p (pos kind) then file else path

abbrev pub after_parse : Bool → Config → Config
after_parse true c = c
after_parse false c = yyerror c

module _ (p : Parser) where
  -- A file that cannot be opened is a null pointer, which the scanner reads.
  abbrev pub with_file : Config → Option Derivation → Parse
  with_file c none = corrupted
  with_file c (some d) =
      reduce_all p d.reductions c then_parse (λ c'. reduced (after_parse d.accepted c'))

  unfoldable pub parse_file : Text → Config → Parse
  parse_file file c = with_file c (p.fopen file)

  -- The next file, unless one before it is wrong.
  unfoldable pub parse_next : Text → Config → Parse
  unfolding parse_file
  parse_next file c = if c.parsed_flag then parse_file file c else reduced c

  unfoldable pub parse_four : Text → Text → Text → Text → Config → Parse
  unfolding parse_file parse_next
  parse_four f1 f2 f3 f4 c =
      parse_file f1 c then_parse parse_next f2 then_parse parse_next f3 then_parse parse_next f4

  -- Its call of `clean` is in the state INIT, which it has set, and ends the program.
  unfoldable pub parse_all : Config → Parse
  unfolding parse_four
  parse_all c =
      parse_four sensors_path actionneurs_path actions_path rules_path
        (record c { parsed_flag = true })
      then_parse (λ c'. if c'.parsed_flag then reduced c' else ended)

  unfoldable pub clean : ProgState → Config → Parse
  unfolding parse_all
  clean init c = ended
  clean reloading c = parse_all (emptied c)

  -- The result is `parsedFlag`.
  unfoldable pub reparse_files : ℤ → Text → Config → Parse
  unfolding parse_four clean
  reparse_files n file c =
      parse_four (path_for 4 n sensors_path file) (path_for 3 n actionneurs_path file)
        (path_for 2 n actions_path file) (path_for 1 n rules_path file)
        (record (emptied c) { parsed_flag = true })
      then_parse (λ c'.
          if c'.parsed_flag
          then reduced c'
          else clean reloading c' then_parse (λ c2. reduced (record c2 { parsed_flag = false })))
