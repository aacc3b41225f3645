-- ===== src/Connector/Output.antt =====
-- relay-engine/src/agents/claude_code.rs: the collected output of the child.
use Prim.Native.String
use cozmio.Prelude.{String, if◌then◌else◌}
use cozmio.Prelude.Text.{is_blank}

-- `push_str(&line)` and `push('\n')`, before the lines that follow.
abbrev pub push_line : String → String → String
push_line line rest = String.◌++◌ line (String.◌++◌ "\n" rest)

unfoldable pub combine_output : String → String → String
unfolding is_blank
combine_output stdout_text stderr_text =
    if is_blank stdout_text
    then (if is_blank stderr_text then "" else stderr_text)
    else (if is_blank stderr_text
        then stdout_text
        else String.◌++◌ stdout_text (String.◌++◌ "\n" stderr_text))
