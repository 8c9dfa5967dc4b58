-- ===== src/Tags/Words/Joined.antt =====
-- The tags of a caption are the words that were joined.
use tdrive.Base.{
  ℕ, ◌≡◌, refl, sym, ap, ◌∙◌, Bool, true, false, not, ◌&&◌, List, [], ◌∷◌, ◌++◌, append-nil, arith,
  All, choose_true, choose_false,
}
use tdrive.Access.Perms.{is_space}
use tdrive.Names.Path.{Text, put_front}
use tdrive.Tags.Words.{blank, starts_word, fields, behind}

abbrev pub no_space : Text → Bool
no_space [] = true
no_space (c ∷ cs) = not (is_space c) && no_space cs

-- A word: not empty, and no white space in it.
abbrev pub is_word : Text → Bool
is_word [] = false
is_word (c ∷ cs) = no_space (c ∷ cs)

pub and_left : (a b : Bool) → (not a && b) ≡ true → a ≡ false
and_left a b h = ground arith

pub and_right : (a b : Bool) → (not a && b) ≡ true → b ≡ true
and_right a b h = ground arith

fields-word :
    (c : ℕ) (cs rest : Text)
    → no_space (c ∷ cs) ≡ true
    → starts_word rest ≡ false
    → fields (c ∷ cs ++ rest) ≡ (c ∷ cs) ∷ fields rest
unfolding fields
fields-word c [] rest h s = choose_false _ _ (and_left (is_space c) true h) ∙ choose_false _ _ s
fields-word c (d ∷ ds) rest h s =
    let k = and_right (is_space c) (no_space (d ∷ ds)) h in
    choose_false _ _ (and_left (is_space c) (no_space (d ∷ ds)) h)
    ∙ choose_true _ _ (ap not (and_left (is_space d) (no_space ds) k))
    ∙ ap (put_front c) (fields-word d ds rest k s)

-- Fields undoes Join.
pub fields-behind :
    (w : Text) (ws : List Text)
    → is_word w ≡ true
    → All (λ v. is_word v ≡ true) ws
    → fields (behind w ws) ≡ w ∷ ws
unfolding fields
fields-behind [] ws h k = absurd (ground arith)
fields-behind (c ∷ cs) [] h k =
    ap (λ (t : Text). fields t) (sym (append-nil (c ∷ cs))) ∙ fields-word c cs [] h refl
fields-behind (c ∷ cs) (v ∷ vs) h k =
    fields-word c cs (blank ∷ behind v vs) h refl
    ∙ ap (λ (t : List Text). (c ∷ cs) ∷ t) (fields-behind v vs (k.0) (k.1))
