-- ===== src/Json.antt =====
-- The part of QJsonValue and QJsonObject that the stores use. Reading and printing the text of a
-- document is Qt's; the modules that use a document take it as a value of this type.
use zephyrftp.Base.{ℕ, ◌≡◌, refl, Bool, List, [], ◌∷◌, if◌then◌else◌}
use zephyrftp.Base.Text.{Text, text_eq}

mutual
  pub data JsonValue : Type 0 where
    null : JsonValue
    bool : Bool → JsonValue
    number : ℕ → JsonValue
    string : Text → JsonValue
    array : JsonItems → JsonValue
    object : JsonFields → JsonValue

  pub data JsonItems : Type 0 where
    nil : JsonItems
    cons : JsonValue → JsonItems → JsonItems

  pub data JsonFields : Type 0 where
    end : JsonFields
    field : Text → JsonValue → JsonFields → JsonFields

-- QJsonObject::value; a missing key gives a value of no type, for which every reading below has
-- the same default as for null
unfoldable pub value : Text → JsonFields → JsonValue
value k end = null
value k (field j v fs) = if text_eq j k then v else value k fs

-- QJsonValue::toString, toBool, toObject and the integer conversions, with their defaults
unfoldable pub to_text : JsonValue → Text
to_text (string t) = t
to_text _ = []

unfoldable pub to_bool : Bool → JsonValue → Bool
to_bool d (bool b) = b
to_bool d _ = d

unfoldable pub to_number : ℕ → JsonValue → ℕ
to_number d (number n) = n
to_number d _ = d

unfoldable pub to_object : JsonValue → JsonFields
to_object (object fs) = fs
to_object _ = end

-- QJsonDocument::isArray with array(), and isObject with toObject(), over the elements of a list
unfoldable pub to_list : JsonItems → List JsonValue
to_list nil = []
to_list (cons v vs) = v ∷ to_list vs

unfoldable pub of_list : List JsonValue → JsonItems
of_list [] = nil
of_list (v ∷ vs) = cons v (of_list vs)

pub to_list-of_list : (vs : List JsonValue) → to_list (of_list vs) ≡ vs
unfolding to_list of_list
to_list-of_list [] = refl
to_list-of_list (v ∷ vs) = cc (to_list-of_list vs)
