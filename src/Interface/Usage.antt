-- ===== src/Interface/Usage.antt =====
-- The usage lines of src/interface.rs.
use decent_share.Base.{String}

abbrev pub trade_usage : String
trade_usage =
    "Usage: trade <name_of_offered_file> <path_to_offered_file> <recipient_username> <name_of_requested_file> <path_to_put_requested_file>"

abbrev pub send_usage : String
send_usage = "Usage: send <message_to_broadcast>"

abbrev pub dm_usage : String
dm_usage = "Usage: dm <username> <message>"

abbrev pub accept_usage : String
accept_usage =
    "Usage: accept <offerer_username> <name_of_offered_file> <path_to_place_received_file> <name_of_requested_file> <path_to_source_requested_file>"

abbrev pub decline_usage : String
decline_usage = "Usage: decline <offerer_username> <name_of_offered_file> <name_of_requested_file>"
