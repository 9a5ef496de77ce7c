-- ===== src/Chat/Client/User.antt =====
-- examples/chat/chat_client/src/user.rs: the actor of a user, with the paragraph that shows its
-- nickname. That the paragraph leaves the page with the last address of its actor is left out.
use Prim.Native.String.{◌++◌}
use thespis_impl_remote.Common.{ℕ, String, Bool, true, false, [], if◌then◌else◌}
use thespis_impl_remote.Chat.Format.{Text}
use thespis_impl_remote.Chat.Client.Color.{Color, Printer, light, to_css}

-- What the page shows of a paragraph.
pub record Paragraph : Type 0 where
  pub inner_text : Text
  pub color : String
  pub id : String

-- `p` is in the page, in the division of the list of users, if `indom`.
pub record User : Type 0 where
  pub sid : ℕ
  pub nick : Text
  pub color : Color
  pub p : Paragraph
  pub indom : Bool

-- `random` is the colour that was drawn.
unfoldable pub new : Color → ℕ → Text → User
new random sid nick = record {
  sid = sid;
  nick = nick;
  color = light random;
  p = record { inner_text = []; color = ""; id = "" };
  indom = false;
}

unfoldable pub render : Printer → User → User
render printer u = record u {
  p = record {
    inner_text = u.nick;
    color = to_css printer u.color;
    id = "user_" ++ printer.decimal u.sid;
  };
  indom = true;
}

-- `Handler<UserInfo>`
unfoldable pub user_info : User → Text × Color
user_info u = (u.nick, u.color)

-- `Handler<ChangeNick>`
unfoldable pub change_nick : Printer → Text → User → User
unfolding render
change_nick printer nick u =
    let named : User = record u { nick = nick } in if u.indom then render printer named else named
