-- ===== src/ExampleTask/Setup/Texts.antt =====
-- ExampleTask/task.c: the names of the example task.
use real_time_system.Common.{[], ◌∷◌, ◌++◌}
use real_time_system.Common.Names.{Name}

abbrev example : Name
example = b'e' ∷ b'x' ∷ b'a' ∷ b'm' ∷ b'p' ∷ b'l' ∷ b'e' ∷ []

abbrev pub component_name : Name
component_name = b't' ∷ b'a' ∷ b's' ∷ b'k' ∷ b'1' ∷ []

abbrev pub enable_in_name : Name
enable_in_name = example ++ b'.' ∷ b'e' ∷ b'n' ∷ b'a' ∷ b'b' ∷ b'l' ∷ b'e' ∷ b'-' ∷ b'i' ∷ b'n' ∷ []

abbrev pub target_pos_name : Name
target_pos_name =
    example ++ b'.' ∷ b't' ∷ b'a' ∷ b'r' ∷ b'g' ∷ b'e' ∷ b't' ∷ b'-' ∷ b'p' ∷ b'o' ∷ b's' ∷ []

abbrev pub feed_rate_name : Name
feed_rate_name = example ++ b'.' ∷ b'f' ∷ b'e' ∷ b'e' ∷ b'd' ∷ b'-' ∷ b'r' ∷ b'a' ∷ b't' ∷ b'e' ∷ []

abbrev pub current_pos_name : Name
current_pos_name =
    example
    ++ b'.' ∷ b'c' ∷ b'u' ∷ b'r' ∷ b'r' ∷ b'e' ∷ b'n' ∷ b't' ∷ b'-' ∷ b'p' ∷ b'o' ∷ b's' ∷ []

abbrev pub running_name : Name
running_name = example ++ b'.' ∷ b'r' ∷ b'u' ∷ b'n' ∷ b'n' ∷ b'i' ∷ b'n' ∷ b'g' ∷ []

abbrev pub error_name : Name
error_name = example ++ b'.' ∷ b'e' ∷ b'r' ∷ b'r' ∷ b'o' ∷ b'r' ∷ []

abbrev pub heartbeat_out_name : Name
heartbeat_out_name =
    example
    ++ b'.' ∷ b'h' ∷ b'e' ∷ b'a' ∷ b'r' ∷ b't' ∷ b'b' ∷ b'e' ∷ b'a' ∷ b't' ∷ b'-' ∷ b'o' ∷ b'u'
      ∷ b't' ∷ []

abbrev pub max_velocity_name : Name
max_velocity_name =
    example
    ++ b'.' ∷ b'm' ∷ b'a' ∷ b'x' ∷ b'-' ∷ b'v' ∷ b'e' ∷ b'l' ∷ b'o' ∷ b'c' ∷ b'i' ∷ b't' ∷ b'y' ∷ []

abbrev pub max_accel_name : Name
max_accel_name = example ++ b'.' ∷ b'm' ∷ b'a' ∷ b'x' ∷ b'-' ∷ b'a' ∷ b'c' ∷ b'c' ∷ b'e' ∷ b'l' ∷ []

abbrev pub thread_name : Name
thread_name = example ++ b'-' ∷ b't' ∷ b'h' ∷ b'r' ∷ b'e' ∷ b'a' ∷ b'd' ∷ []

abbrev pub handler_name : Name
handler_name =
    example
    ++ b'-' ∷ b'c' ∷ b'm' ∷ b'd' ∷ b'-' ∷ b'h' ∷ b'a' ∷ b'n' ∷ b'd' ∷ b'l' ∷ b'e' ∷ b'r' ∷ []

abbrev pub controller_name : Name
controller_name =
    example ++ b'-' ∷ b'c' ∷ b'o' ∷ b'n' ∷ b't' ∷ b'r' ∷ b'o' ∷ b'l' ∷ b'l' ∷ b'e' ∷ b'r' ∷ []
