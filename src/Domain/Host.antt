-- ===== src/Domain/Host.antt =====
-- What the server calls of its runtime and leaves to it.
use keyzori.Prelude.{ℕ, String, Option}

pub record Host : Type 0 where
  -- `new Date(text).getTime()`; a text that is no date, or one before 1970, has no time.
  pub parse_date : String → Option ℕ
  -- `text.toLowerCase()`.
  pub to_lower_case : String → String
  -- `isIP(text)` of node:net.
  pub is_ip : String → ℕ
  -- `new URL("http://[" + address + "]/").hostname`, where the URL is valid.
  pub url_hostname : String → Option String
