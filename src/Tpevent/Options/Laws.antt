-- ===== src/Tpevent/Options/Laws.antt =====
-- The options of the server.
use technopark_cpp.Tpevent.Options.{
  set_pair, opt_engine, opt_port, get_engine, string2engine, bare_name, make_options, split,
  Options, to_uint16, text_select, set_option, opt_async, set_engine, text_poll, set_all,
  server_main, select_engine, starts_with, unset, poll_engine, set_async, Library, dashes, equals,
}
use technopark_cpp.Prelude.{
  Bool, List, [], ap, arith, false, if◌then◌else◌, length, le→ltb, map, ok, pos, refl, some, suc,
  true, undefined, ℕ, ℤ, ◌++◌, ◌+◌, ◌==◌, ◌∙◌, ◌∷◌, ◌≡◌, ◌≤◌,
}

-- `--name=value`
abbrev pub argument : List ℕ → List ℕ → List ℕ
argument name value = (dashes ++ name) ++ (equals ++ value)

-- A text without `=`
abbrev pub Bare : List ℕ → Type 0
Bare [] = Unit {0}
Bare (x ∷ xs) = ((x == 61) ≡ false) × Bare xs

-- What the parser relies on: a text with a single `=` splits there, and dashes are seen.
pub record Documented (lib : Library) : Type 0 where
  pub splits :
      (name value : List ℕ)
      → Bare name
      → Bare value
      → lib.boost_split (name ++ (equals ++ value)) equals ≡ name ∷ value ∷ []
  pub sees : (s prefix : List ℕ) → lib.boost_starts_with (prefix ++ s) prefix ≡ true

-- What an argument sets; the text of a number comes with the number that `std::stoi` reads in it.
pub data Setting : Type 0 where
  sets_port : List ℕ → ℤ → Setting
  sets_engine : Bool → Setting
  sets_async : List ℕ → Bool → Setting

abbrev pub written : Setting → List ℕ
written (sets_port value n) = argument opt_port value
written (sets_engine with_poll) = argument opt_engine (if with_poll then text_poll else text_select)
written (sets_async value b) = argument opt_async value

abbrev pub one_zero : Bool → ℤ
one_zero true = pos 1
one_zero false = pos 0

-- The text is one that `std::stoi` reads.
abbrev pub Readable : Library → Setting → Type 0
Readable lib (sets_port value n) = Bare value × (lib.stoi value ≡ ok n)
Readable lib (sets_engine with_poll) = Unit {0}
Readable lib (sets_async value b) = Bare value × (lib.stoi value ≡ ok (one_zero b))

abbrev pub AllReadable : Library → List Setting → Type 0
AllReadable lib [] = Unit {0}
AllReadable lib (s ∷ ss) = Readable lib s × AllReadable lib ss

abbrev pub apply : Setting → Options → Options
apply (sets_port value n) o = record o { m_port = some (to_uint16 n) }
apply (sets_engine with_poll) o = record o {
  m_engine = some (if with_poll then poll_engine else select_engine);
}
apply (sets_async value b) o = record o { m_async = some b }

unfoldable pub apply_all : List Setting → Options → Options
apply_all [] o = o
apply_all (s ∷ ss) o = apply_all ss (apply s o)

length-written : (ss : List Setting) → length (map written ss) ≡ length ss
length-written [] = refl
length-written (s ∷ ss) = ap suc (length-written ss)

module _ (lib : Library) (doc : Documented lib) where
  set_pair-argument :
      (name value : List ℕ) (o : Options)
      → Bare name
      → Bare value
      → set_pair lib (split lib (argument name value) equals) o ≡ set_option lib name value o
  unfolding split set_pair bare_name starts_with
  set_pair-argument name value o n v =
      rw (doc.splits (dashes ++ name) value (refl, (refl, n)) v, doc.sees name dashes) refl

  set_pair-written :
      (s : Setting) (o : Options)
      → Readable lib s
      → set_pair lib (split lib (written s) equals) o ≡ ok (apply s o)
  unfolding set_option set_engine string2engine set_async
  set_pair-written (sets_port value n) o (bare, r) =
      set_pair-argument opt_port value o (refl, (refl, (refl, (refl, tt)))) bare ∙ rw r refl
  set_pair-written (sets_engine true) o r =
      set_pair-argument opt_engine text_poll o (refl, (refl, (refl, (refl, (refl, (refl, tt))))))
        (refl, (refl, (refl, (refl, tt))))
  set_pair-written (sets_engine false) o r =
      set_pair-argument opt_engine text_select o (refl, (refl, (refl, (refl, (refl, (refl, tt))))))
        (refl, (refl, (refl, (refl, (refl, (refl, tt))))))
  set_pair-written (sets_async value true) o (bare, r) =
      set_pair-argument opt_async value o (refl, (refl, (refl, (refl, (refl, tt))))) bare
      ∙ rw r refl
  set_pair-written (sets_async value false) o (bare, r) =
      set_pair-argument opt_async value o (refl, (refl, (refl, (refl, (refl, tt))))) bare
      ∙ rw r refl

  set_all-written :
      (ss : List Setting) (o : Options)
      → AllReadable lib ss
      → set_all lib (map written ss) o ≡ ok (apply_all ss o)
  unfolding set_all apply_all
  set_all-written [] o r = refl
  set_all-written (s ∷ ss) o r =
      rw (set_pair-written s o r.0, set_all-written ss (apply s o) r.1) refl

  -- If three or more settings are written as --name=value, with numbers that std::stoi reads and
  -- texts without an equals sign, the parser returns them, the last of each kind; the port is cut
  -- to 16 bits. Assumed of boost: a text with a single equals sign splits into its two sides, and a
  -- prefix is seen.
  pub make_options-written :
      (ss : List Setting)
      → AllReadable lib ss
      → 3 ≤ length ss
      → make_options lib (map written ss) ≡ ok (apply_all ss unset)
  unfolding make_options
  make_options-written ss r enough =
      let size : length (map written ss) ≡ length ss = length-written ss in
      rw (size, le→ltb (length ss + 1) 4 (omega arith)) (set_all-written ss unset r)

abbrev pub NamesNoEngine : List Setting → Type 0
NamesNoEngine [] = Unit {0}
NamesNoEngine (sets_port value n ∷ ss) = NamesNoEngine ss
NamesNoEngine (sets_engine with_poll ∷ ss) = ⊥
NamesNoEngine (sets_async value b ∷ ss) = NamesNoEngine ss

apply_all-no_engine :
    (ss : List Setting) (o : Options) → NamesNoEngine ss → (apply_all ss o).m_engine ≡ o.m_engine
unfolding apply_all
apply_all-no_engine [] o n = refl
apply_all-no_engine (sets_port value x ∷ ss) o n =
    apply_all-no_engine ss (apply (sets_port value x) o) n
apply_all-no_engine (sets_engine with_poll ∷ ss) o n = elim n [ ]
apply_all-no_engine (sets_async value b ∷ ss) o n =
    apply_all-no_engine ss (apply (sets_async value b) o) n

-- With three or more arguments that are written settings, none of which names an engine, the server
-- reads a member that was never set. Assumed of boost: a text with a single equals sign splits into
-- its two sides, and a prefix is seen.
pub server_main-unset :
    (lib : Library) (ss : List Setting)
    → Documented lib
    → AllReadable lib ss
    → 3 ≤ length ss
    → NamesNoEngine ss
    → server_main lib (map written ss) ≡ undefined
unfolding server_main get_engine
server_main-unset lib ss doc r enough n =
    rw (make_options-written lib doc ss r enough, apply_all-no_engine ss unset n) refl
