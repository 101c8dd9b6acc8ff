-- ===== src/Server/Configuration/Reloading.antt =====
-- The configuration that is read from the four files, at the start and again.
use cofi_ty_home.Common.{◌≡◌, refl, Bool, true, false, Option, none, some, [], Text}
use cofi_ty_home.Common.Int.{ℤ}
use cofi_ty_home.Server.Configuration.{Config, Derivation, Parser, reduced, ended}
use cofi_ty_home.Server.Configuration.Wiring.{Yields, Yields-then_parse, Yields-if, IsWired}
use cofi_ty_home.Server.Configuration.Keeping.{reduce_all-IsWired}
use cofi_ty_home.Server.Configuration.Files.{
  sensors_path, actionneurs_path, actions_path, rules_path, path_for, after_parse, with_file,
  parse_file, parse_next, parse_four, parse_all, clean, reparse_files,
}

-- No configuration; `b` is what the last parsing has left in `flagTime`.
abbrev pub blank : Bool → Config
blank b = record {
  sensors = [];
  actionneurs = [];
  actions = [];
  rules = [];
  untyped = false;
  flag_time = b;
  parsed_flag = true;
}

after_parse-IsWired : (b : Bool) (c : Config) → IsWired c → IsWired (after_parse b c)
after_parse-IsWired true c w = w
after_parse-IsWired false c w = w

module _ (p : Parser) where
  pub parse_file-IsWired :
      (file : Text) (c : Config) → IsWired c → Yields IsWired (parse_file p file c)
  unfolding parse_file
  parse_file-IsWired file c w = go (p.fopen file)
    where
      go : (o : Option Derivation) → Yields IsWired (with_file p c o)
      go none = tt
      go (some d) =
          Yields-then_parse IsWired IsWired _ _ (reduce_all-IsWired p d.reductions c w)
            (λ c' w'. after_parse-IsWired d.accepted c' w')

  parse_next-IsWired : (file : Text) (c : Config) → IsWired c → Yields IsWired (parse_next p file c)
  unfolding parse_next
  parse_next-IsWired file c w =
      Yields-if IsWired c.parsed_flag _ _ (λ right. parse_file-IsWired file c w) (λ wrong. w)

  parse_four-IsWired :
      (f1 f2 f3 f4 : Text) (c : Config) → IsWired c → Yields IsWired (parse_four p f1 f2 f3 f4 c)
  unfolding parse_four
  parse_four-IsWired f1 f2 f3 f4 c w =
      Yields-then_parse IsWired IsWired _ _
        (Yields-then_parse IsWired IsWired _ _
          (Yields-then_parse IsWired IsWired _ _ (parse_file-IsWired f1 c w)
            (parse_next-IsWired f2))
          (parse_next-IsWired f3))
        (parse_next-IsWired f4)

  -- Without a configuration, parseAll ends the program, or leaves one in which every sensor has the
  -- decoder of its type, every condition points into a sensor or has a null pointer while there is
  -- a clock, and no file was wrong.
  pub parse_all-IsWired :
      (b : Bool) → Yields (λ c. IsWired c × (c.parsed_flag ≡ true)) (parse_all p (blank b))
  unfolding parse_all
  parse_all-IsWired b =
      Yields-then_parse IsWired _ _ _ (parse_four-IsWired _ _ _ _ (blank b) (tt, tt)) (λ c w.
        Yields-if (λ k. IsWired k × (k.parsed_flag ≡ true)) c.parsed_flag (reduced c) ended
          (λ right. (w, right)) (λ wrong. tt))

  pub reparse_files-IsWired :
      (n : ℤ) (file : Text) (c : Config) → Yields IsWired (reparse_files p n file c)
  unfolding reparse_files clean
  reparse_files-IsWired n file c =
      Yields-then_parse IsWired IsWired _ _
        (parse_four-IsWired _ _ _ _ (blank c.flag_time) (tt, tt))
        (λ c' w'.
          Yields-if IsWired c'.parsed_flag (reduced c') _ (λ right. w')
            (λ wrong.
              Yields-then_parse (λ k. IsWired k × (k.parsed_flag ≡ true)) IsWired _ _
                (parse_all-IsWired c'.flag_time) (λ k w. w.0)))

  -- If the files with the new one among them are read to their ends or to an error, one is wrong,
  -- no time is left open, and the files of the disk were right at the start, then reparseFiles goes
  -- back to the configuration of the files of the disk, and returns that the new one is wrong.
  pub reparse_files-rejected :
      (n : ℤ) (file : Text) (c c' c2 : Config)
      → parse_four p
          (path_for 4 n sensors_path file)
          (path_for 3 n actionneurs_path file)
          (path_for 2 n actions_path file)
          (path_for 1 n rules_path file)
          (blank c.flag_time)
        ≡ reduced c'
      → c'.parsed_flag ≡ false
      → c'.flag_time ≡ false
      → parse_all p (blank false) ≡ reduced c2
      → reparse_files p n file c ≡ reduced (record c2 { parsed_flag = false })
  unfolding reparse_files clean parse_all
  reparse_files-rejected n file c c' c2 new wrong closed disk =
      rw (new, wrong, closed) (rw disk refl)
