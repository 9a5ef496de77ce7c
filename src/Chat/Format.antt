-- ===== src/Chat/Format.antt =====
-- examples/chat/chat_format/src/: the messages between the chat server and its clients, and the
-- errors. A text is its bytes.
use thespis_impl_remote.Common.{
  ℕ, String, Bool, true, false, List, [], ◌∷◌, ◌==◌, ◌&&◌, ◌≡◌, refl, arith,
}

abbrev pub Text : Type 0
Text = List ℕ

-- Equality of texts.
unfoldable pub text_eq : Text → Text → Bool
text_eq [] [] = true
text_eq [] (b ∷ ys) = false
text_eq (a ∷ xs) [] = false
text_eq (a ∷ xs) (b ∷ ys) = a == b && text_eq xs ys

pub text_eq_sound : (a b : Text) → text_eq a b ≡ true → a ≡ b
unfolding text_eq
text_eq_sound [] [] h = refl
text_eq_sound [] (b ∷ ys) h = absurd (ground arith)
text_eq_sound (a ∷ xs) [] h = absurd (ground arith)
text_eq_sound (a ∷ xs) (b ∷ ys) h = ground (arith, text_eq_sound xs ys)

pub text_eq_refl : (a : Text) → text_eq a a ≡ true
unfolding text_eq
text_eq_refl [] = refl
text_eq_refl (a ∷ xs) = ground (arith, text_eq_refl xs)

-- `ChatErrKind`, of which a `ChatErr` has one; its hidden variant, which nothing makes, is left out.
pub data ChatErr : Type 0 where
  nick_invalid nick_inuse nick_unchanged already_joined : ChatErr

-- `Display for ChatErr`
unfoldable pub display : ChatErr → String
display nick_invalid =
    "ChatErr: The new nickname is invalid (must be 1-15 word characters (\\w regex class))."
display nick_inuse = "ChatErr: An error happend on the tcp level when connecting."
display nick_unchanged = "ChatErr: The old nickname is the same as the new one."
display already_joined = "ChatErr: You can only call join once."

-- What clients are sent; each has the time at which it was made.
pub data ServerMsg : Type 0 where
  chat_msg : ℕ → ℕ → Text → ServerMsg
  user_joined : ℕ → Text → ℕ → ServerMsg
  user_left : ℕ → ℕ → ServerMsg
  nick_changed : ℕ → ℕ → Text → ServerMsg

-- What a client is answered that has joined.
pub record Welcome : Type 0 where
  pub time : ℕ
  pub sid : ℕ
  pub users : List (ℕ × Text)
  pub txt : String
