-- ===== src/ProjectPage.antt =====
-- pages/workflows/ProjectDetail/ProjectDetail.tsx: sections of the page of a project. The project is that
-- of the route, which is there.
pub mod Keyed
pub mod Suites
pub mod Releases
use testnexa.Base.{String, Option, none, some, List, truthy, if◌then◌else◌}
use testnexa.Base.Dict.{lookup}
use testnexa.Workflow.{FieldMessage, several, single, Failure, api_error}

-- An empty text is falsy.
is_message : Option FieldMessage → Option FieldMessage
is_message none = none
is_message (some (several messages)) = some (several messages)
is_message (some (single message)) = if truthy message then some (single message) else none

-- `fieldError(err, field)`, where it is truthy
unfoldable pub field_error : Failure → String → Option FieldMessage
unfolding is_message
field_error (api_error message (some errors)) field = is_message (lookup field errors)
field_error _ field = none
