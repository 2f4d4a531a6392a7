-- ===== src/PathEnd/Validate.antt =====
-- core/ics24.go: the validation of a path end. The identifier validators are those of ibc-go.
use yui_relayer.Base.{
  String, Bool, ◌||◌, str_eq, if◌then◌else◌, Action, external, message, pure, fail, ◌>>◌,
}
use yui_relayer.Ibc.{Functions}
use yui_relayer.PathEnd.{PathEnd, codes, codes_eq, to_upper}

-- Vclient, Vconn, Vchan: an empty identifier is not checked.
unfoldable pub check_optional : {W : Type 0} → (String → Bool) → String → Action W (Unit {0})
check_optional is_valid id =
    if str_eq id "" then pure tt else if is_valid id then pure tt else fail (external "identifier")

-- Vport
unfoldable pub check_port : {W : Type 0} → (String → Bool) → String → Action W (Unit {0})
check_port is_valid id = if is_valid id then pure tt else fail (external "identifier")

-- PathEnd.Validate
unfoldable pub validate : {W : Type 0} → Functions → PathEnd → Action W (Unit {0})
unfolding check_optional check_port
validate ibc pe = do
  check_optional ibc.is_client_identifier pe.client_id
  check_optional ibc.is_connection_identifier pe.connection_id
  check_optional ibc.is_channel_identifier pe.channel_id
  check_port ibc.is_port_identifier pe.port_id
  let order = to_upper pe.order
  if codes_eq order (codes "ORDERED") || codes_eq order (codes "UNORDERED")
      then pure tt
      else fail (message "channel must be either 'ORDERED' or 'UNORDERED'")
