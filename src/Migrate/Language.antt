-- ===== src/Migrate/Language.antt =====
-- The text operations of the language that the migration core calls. A regular expression is given by
-- its text, flags included.
use nodejs_movy_data.Prelude.{ℕ, String, Bool}

pub record Language : Type 0 where
  -- `String.prototype.toUpperCase`, `toLowerCase` and `trim`
  pub to_upper : String → String
  pub to_lower : String → String
  pub trim : String → String
  -- `pattern.test(text)`
  pub matches : (pattern text : String) → Bool
  -- `text.replace(pattern, by)`
  pub replace : (pattern by text : String) → String
  -- `text.slice(0, n)`
  pub cut : (n : ℕ) (text : String) → String
  -- `String(n)`
  pub show : (n : ℕ) → String
