-- ===== src/Instance/Examples.antt =====
-- The theorems on names of instances at concrete names.
use prettymux.Prelude.{
  ◌↔◌, if◌then◌else◌, ◌+◌, ◌≡◌, ◌≤◌, refl, true, false, none, some, [], length, arith,
}
use prettymux.Prelude.Text.{Text, codes, is_empty}
use prettymux.Instance.{
  AppState, is_valid, assign_instance_id, parse_socket_name, sanitize, keep_allowed, char_allowed,
}
use prettymux.Instance.Valid.{assign_instance_id-is_valid}
use prettymux.Instance.Socket.{socket_name, parse_socket_name-socket_name_iff}
use prettymux.Instance.Nested.{
  Surroundings, has_live_socket, is_connectable, choose_slot, derive_lane_id, base_candidate,
  assign_nested_child, build_child_id, digits, socket_runtime_dir,
}
use prettymux.Instance.Child.{assign_nested_child-AllLive}
use prettymux.Instance.Slots.{AllLive}

abbrev unnamed : AppState
unnamed = record { instance_id = [] }

assign_instance_id-is_valid_example :
    (is_valid (assign_instance_id unnamed (some (codes "my lab/2"))).instance_id ≡ true)
    × (length (assign_instance_id unnamed (some (codes "my lab/2"))).instance_id ≤ 63)
assign_instance_id-is_valid_example = assign_instance_id-is_valid unnamed (some (codes "my lab/2"))

-- The blank and the slash go.
assign_lab : (assign_instance_id unnamed (some (codes "my lab/2"))).instance_id ≡ codes "mylab2"
unfolding assign_instance_id sanitize keep_allowed char_allowed
assign_lab = refl

lab_valid : is_valid (codes "lab-2") ≡ true
unfolding is_valid char_allowed
lab_valid = refl

parse_socket_name-socket_name_iff_example :
    (parse_socket_name (codes "prettymux-lab-2.sock") 128 ≡ some (codes "lab-2")) ↔ (
      (socket_name (codes "lab-2") ≡ codes "prettymux-lab-2.sock")
      × (is_valid (codes "lab-2") ≡ true)
      × (length (codes "lab-2") + 1 ≤ 128))
parse_socket_name-socket_name_iff_example =
    parse_socket_name-socket_name_iff (codes "prettymux-lab-2.sock") (codes "lab-2") 128

-- Every socket accepts a connection.
abbrev crowded : Surroundings
crowded = record {
  child_instance_id = none;
  terminal_id = none;
  ttyname = none;
  instance_id = none;
  inside_prettymux = none;
  parent_socket = none;
  runtime_dir = none;
  connect = λ path. true;
  session_exists = λ file. false;
}

-- The third child of a name.
build_child_three : build_child_id 64 (codes "lab-child-t") 13 ≡ codes "lab-child-t-13"
unfolding build_child_id digits
build_child_three = refl

-- Every name but the empty one is that of a running instance there.
live_there : (t : Text) → is_empty t ≡ false → has_live_socket crowded t ≡ true
unfolding has_live_socket is_connectable socket_runtime_dir
live_there t filled = ground arith

filled_valid : (t : Text) → is_valid t ≡ true → is_empty t ≡ false
unfolding is_valid
filled_valid t h = ground arith

implicit : (derive_lane_id crowded).0 ≡ false
unfolding derive_lane_id sanitize
implicit = refl

named : is_empty (assign_nested_child crowded unnamed (some (codes "lab"))).instance_id ≡ false
unfolding assign_nested_child
named =
    filled_valid (assign_nested_child crowded unnamed (some (codes "lab"))).instance_id
      (assign_instance_id-is_valid unnamed (
        some (
          if (derive_lane_id crowded).0
          then base_candidate crowded (some (codes "lab"))
          else choose_slot crowded (base_candidate crowded (some (codes "lab"))) 998))).0

assign_nested_child-AllLive_example :
    (has_live_socket crowded (base_candidate crowded (some (codes "lab"))) ≡ true)
    × AllLive crowded (base_candidate crowded (some (codes "lab"))) 998 2
assign_nested_child-AllLive_example =
    assign_nested_child-AllLive crowded unnamed (some (codes "lab")) implicit
      (live_there (assign_nested_child crowded unnamed (some (codes "lab"))).instance_id named)
