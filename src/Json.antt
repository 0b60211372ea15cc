-- ===== src/Json.antt =====
-- JSON values as json-glib hands them to the program, and its accessors that the program calls. A
-- member of the wrong type counts as a missing one. json-glib also converts between numbers and truth values, and
-- has doubles; neither is modelled, since the members that the modules read are written with the types that they
-- are read with.
use prettymux.Prelude.{Bool, true, false, Option, none, some, List, [], ◌∷◌, if◌then◌else◌}
use prettymux.Prelude.Int.{ℤ}
use prettymux.Prelude.Text.{Text, text_eq}

mutual
  pub data Json : Type 0 where
    null : Json
    bool : Bool → Json
    int : ℤ → Json
    string : Text → Json
    array : Items → Json
    object : Members → Json

  pub data Items : Type 0 where
    nil : Items
    item : Json → Items → Items

  pub data Members : Type 0 where
    end : Members
    member : Text → Json → Members → Members

-- json_object_get_member
abbrev pub get_member : Members → Text → Option Json
get_member end name = none
get_member (member key value rest) name =
    if text_eq key name then some value else get_member rest name

-- json_object_has_member
abbrev pub has_member : Members → Text → Bool
has_member o name = elim (get_member o name) [ none ↦ false | some v ↦ true ]

abbrev string_or : Text → Option Json → Text
string_or default (some (string t)) = t
string_or default _ = default

abbrev int_or : ℤ → Option Json → ℤ
int_or default (some (int i)) = i
int_or default _ = default

abbrev bool_or : Bool → Option Json → Bool
bool_or default (some (bool b)) = b
bool_or default _ = default

-- json_object_get_string_member_with_default
abbrev pub string_member : Members → Text → Text → Text
string_member o name default = string_or default (get_member o name)

-- json_object_get_int_member_with_default
abbrev pub int_member : Members → Text → ℤ → ℤ
int_member o name default = int_or default (get_member o name)

-- json_object_get_boolean_member_with_default
abbrev pub bool_member : Members → Text → Bool → Bool
bool_member o name default = bool_or default (get_member o name)

abbrev as_array : Option Json → Option Items
as_array (some (array xs)) = some xs
as_array _ = none

abbrev as_object : Option Json → Option Members
as_object (some (object o)) = some o
as_object _ = none

-- `session_object_has_array` and json_object_get_array_member
abbrev pub array_member : Members → Text → Option Items
array_member o name = as_array (get_member o name)

-- json_object_get_object_member
abbrev pub object_member : Members → Text → Option Members
object_member o name = as_object (get_member o name)

abbrev pub strings : List Text → Items
strings [] = nil
strings (t ∷ ts) = item (string t) (strings ts)
