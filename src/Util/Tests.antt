-- ===== src/Util/Tests.antt =====
-- Names from the comments and tests of the source, and the theorems at concrete inputs.
use zctl.Base.{Text, [], some, none, text_eq, false, ◌∷◌, codes, ◌≡◌, refl, All}
use zctl.Util.Casing.{ascii, ascii_upper}
use zctl.Util.Format.{
  lower, title, index_of, get_style, transfer_to, transfer_all, do_format, apply_format,
  format_parts, format_at, file_naming_format,
}
use zctl.Util.Format.Assembled.{styled, file_naming_format-assembled}
use zctl.Util.Keywords.{go_keyword, lookup, is_golang_keyword, escape_golang_keyword}
use zctl.Util.Words.{join, keep, concat}
use zctl.Util.Stringx.{to_snake}
use zctl.Util.Name.{
  file_snake, rpc_logic_file_name, rpc_server_file_name, proto_pkg, service_go_ident, dash_name,
  env_var_name, split_ident, has_double_dash,
}
use zctl.Util.Name.Split.{IsToken, is_letterlike, concat-split_ident, split_ident-All}
use zctl.Util.Name.FileSnake.{file_snake_idem}
use zctl.Util.Name.Service.{starts_dash, ends_dash, dash_name_dashes}
use zctl.Util.Safe.{safe_string, safe_string_unchanged}

file_names :
    (rpc_logic_file_name ascii (codes "CsGetAccessibleCIDs") ≡ codes "cs_get_accessible_cids_logic")
    × (rpc_logic_file_name ascii (codes "GetUserIDs") ≡ codes "get_user_ids_logic")
    × (rpc_server_file_name ascii (codes "CsAgentRpc") ≡ codes "cs_agent_rpc_server")
    × (file_snake ascii (codes "GetHTTPStatus") ≡ codes "get_http_status")
    × (file_snake ascii (codes "cs-agent-rpc") ≡ codes "cs-agent-rpc")
unfolding rpc_logic_file_name rpc_server_file_name file_snake
file_names = (refl, refl, refl, refl, refl)

service_names :
    (proto_pkg (codes "cs-agent-rpc") ≡ codes "csagentrpc")
    × (service_go_ident (codes "cs_agent_rpc") ≡ codes "CsAgentRpc")
    × (service_go_ident (codes "CsAgentRpc") ≡ codes "CsAgentRpc")
    × (dash_name (codes "CsAgentRpc") ≡ codes "cs-agent-rpc")
    × (env_var_name ascii (codes "cs-agent-rpc") ≡ codes "CS_AGENT_RPC")
unfolding proto_pkg service_go_ident dash_name env_var_name
service_names = (refl, refl, refl, refl, refl)

snake_names :
    (to_snake ascii (λ c. false) (codes "Go_Zero") ≡ codes "go__zero")
    × (to_snake ascii (λ c. false) (codes "HTTPSProxy") ≡ codes "https_proxy")
unfolding to_snake
snake_names = (refl, refl)

concat-split_ident_example :
    concat (split_ident (codes "get_CIDsNow")) ≡ keep is_letterlike (codes "get_CIDsNow")
concat-split_ident_example = concat-split_ident (codes "get_CIDsNow")

split_ident-All_example : All IsToken (split_ident (codes "get__CIDsNow"))
split_ident-All_example = split_ident-All (codes "get__CIDsNow")

file_snake_idem_example :
    file_snake ascii (file_snake ascii (codes "GetCIDsByUserID"))
    ≡ file_snake ascii (codes "GetCIDsByUserID")
file_snake_idem_example = file_snake_idem ascii (codes "GetCIDsByUserID")

dash_name_dashes_example :
    (has_double_dash (dash_name (codes "-Cs--Agent_")) ≡ false)
    × (starts_dash (dash_name (codes "-Cs--Agent_")) ≡ false)
    × (ends_dash (dash_name (codes "-Cs--Agent_")) ≡ false)
dash_name_dashes_example = dash_name_dashes (codes "-Cs--Agent_")

safe_string_unchanged_example : safe_string (codes "a[b]^c") ≡ codes "a[b]^c"
safe_string_unchanged_example =
    safe_string_unchanged (codes "a[b]^c") (refl, (refl, (refl, (refl, (refl, (refl, tt)))))) refl

-- A first letter as a capital, for one word.
abbrev ascii_title : Text → Text
ascii_title [] = []
ascii_title (c ∷ s) = ascii_upper c ∷ s

formatted_names :
    (file_naming_format ascii ascii_title (codes "go_zero") (codes "GetUserIDs")
      ≡ some (codes "get_user_ids"))
    × (file_naming_format ascii ascii_title (codes "goZero") (codes "GetUserIDs")
        ≡ some (codes "getUserIDs"))
    × (file_naming_format ascii ascii_title (codes "GO#zero.x") (codes "user_name")
        ≡ some (codes "USER#name.x"))
    × (file_naming_format ascii ascii_title (codes "zerogo") (codes "user_name") ≡ none)
    × (file_naming_format ascii ascii_title (codes "gO_zero") (codes "user_name") ≡ none)
unfolding file_naming_format get_style text_eq index_of format_at format_parts apply_format
    do_format transfer_all transfer_to split_ident file_snake
formatted_names = (refl, refl, refl, refl, refl)

file_naming_format-assembled_example :
    file_naming_format ascii ascii_title (codes "_go#Zero.x") (codes "user_name_list")
    ≡ some (codes "_user#Name#List.x")
unfolding split_ident styled text_eq join
file_naming_format-assembled_example =
    file_naming_format-assembled ascii ascii_title (codes "_") (codes "#") (codes ".x") lower title
      (codes "user_name_list") (codes "user") (codes "name" ∷ codes "list" ∷ []) (refl, tt)
      (refl, tt) refl refl refl

escaped_words :
    (escape_golang_keyword (codes "type") ≡ codes "tp")
    × (escape_golang_keyword (codes "user") ≡ codes "user")
unfolding escape_golang_keyword is_golang_keyword lookup go_keyword text_eq
escaped_words = (refl, refl)
