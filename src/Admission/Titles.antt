-- ===== src/Admission/Titles.antt =====
-- What names and ids look like (conversation/channel_admission.py).
use Prim.Native.Char.{code}
use chatbot_win.Prelude.{
  String, Bool, false, not, ◌&&◌, ◌||◌, List, [], ◌∷◌, any, mem, strip, nonempty, contains,
  starts_with, ◌==◌,
}
use chatbot_win.Json.{Python}

abbrev placeholder_names : List String
placeholder_names =
    "unknown" ∷ "unknown contact" ∷ "unknown user" ∷ "unknown friend" ∷ "wechat user"
    ∷ "weixin user" ∷ "未知" ∷ "未知联系人" ∷ "未知用户" ∷ "微信用户" ∷ "微信联系人" ∷ "system" ∷ "none" ∷ "null" ∷ []

abbrev suspicious_tokens : List String
suspicious_tokens = "�" ∷ "锟" ∷ "馃" ∷ "鈥" ∷ "鐚" ∷ "鍟" ∷ "娴" ∷ "灏" ∷ "鏃" ∷ "闀" ∷ "涓" ∷ "鎺" ∷ []

-- `text.endswith(suffix)`
unfoldable pub ends_with : String → String → Bool
ends_with suffix String.[] = "" == suffix
ends_with suffix (String.◌∷◌ c s) = String.◌∷◌ c s == suffix || ends_with suffix s

-- `re.fullmatch(r"\d+@qqim", text)`, from the second character on and from the first.
unfoldable pub qqim_rest : Python → String → Bool
qqim_rest py String.[] = false
qqim_rest py (String.◌∷◌ c s) = String.◌∷◌ c s == "@qqim" || py.is_digit (code c) && qqim_rest py s

unfoldable pub is_qqim : Python → String → Bool
is_qqim py String.[] = false
is_qqim py (String.◌∷◌ c s) = py.is_digit (code c) && qqim_rest py s

-- `_looks_like_placeholder`
unfoldable pub looks_like_placeholder : Python → String → Bool
looks_like_placeholder py value = mem (py.lower (strip value)) placeholder_names

-- `_looks_like_mojibake_title`
unfoldable pub looks_like_mojibake_title : String → Bool
looks_like_mojibake_title value =
    nonempty (strip value) && any (λ token. contains token (strip value)) suspicious_tokens

-- `_looks_like_private_wechat_receiver`
unfoldable pub looks_like_private_wechat_receiver : Python → String → Bool
looks_like_private_wechat_receiver py value =
    starts_with (strip value) "wxid_" || starts_with (strip value) "gh_" || is_qqim py (strip value)

-- `_looks_like_wechat_receiver`
unfoldable pub looks_like_wechat_receiver : Python → String → Bool
looks_like_wechat_receiver py value =
    nonempty (strip value)
    && (starts_with (strip value) "wxid_"
        || starts_with (strip value) "gh_"
        || ends_with "@chatroom" (strip value)
        || is_qqim py (strip value))

-- Whether a title passes the tests of `_has_human_private_title`.
unfoldable pub is_human_title : Python → String → String → Bool
is_human_title py identity value =
    nonempty (strip value)
    && not (looks_like_placeholder py (strip value))
    && not (looks_like_mojibake_title (strip value))
    && not (strip value == identity && looks_like_wechat_receiver py identity)
    && not (looks_like_wechat_receiver py (strip value))
    && py.is_alnum (strip value)

-- `_has_human_private_title`
unfoldable pub has_human_private_title : Python → List String → String → Bool
has_human_private_title py values identity = any (is_human_title py identity) values
