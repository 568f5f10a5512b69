-- ===== src/Tests/Roles.antt =====
-- Examples for the roles file: config/roles.txt.
use collab_markdown_server.Base.{◌≡◌, refl, Option, some, List, [], ◌∷◌, Text, codes, arith, inr}
use collab_markdown_server.Libc.Strings.Tokens.{is_token}
use collab_markdown_server.Command.{role_read, role_write}
use collab_markdown_server.Auth.{auth_lookup_role}
use collab_markdown_server.Auth.Lookup.{unterminated}
use collab_markdown_server.Auth.Entries.{Entry, find_role, role_found, lookup-find_role}

abbrev path : Text
path = codes "config/roles.txt"

abbrev entries : List Entry
entries =
    record { user = codes "ryan"; role = role_read }
    ∷ record { user = codes "yao"; role = role_read }
    ∷ record { user = codes "daniel"; role = role_write }
    ∷ []

-- config/roles.txt as it is: no newline at its end.
abbrev content : Text
content = codes "ryan read\nyao read\ndaniel write"

abbrev files : Text → Option Text
files name = some content

lookup-find_role_example :
    auth_lookup_role files (some path) (some (codes "daniel"))
    ≡ role_found (find_role (codes "daniel") entries)
unfolding is_token unterminated
lookup-find_role_example =
    lookup-find_role files path (codes "daniel") content entries
      (
        (((λ e. cc), refl, refl), omega arith),
        ((((λ e. cc), refl, refl), omega arith), ((((λ e. cc), refl, refl), omega arith), tt)),
      )
      (inr refl) refl
