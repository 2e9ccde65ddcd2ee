-- ===== src/ToolFactory/Template.antt =====
-- Command templates of the tool factory (app/tool_factory/validation.py): the tables, placeholders,
-- and what a template is tested for.
use devops_agent.Prelude.{
  ℕ, Bool, true, false, ◌&&◌, ◌||◌, not, Option, none, some, List, [], ◌∷◌, ◌++◌, map, any, ◌==◌,
  if◌then◌else◌,
}
use devops_agent.Text.{Text, codes, is_in, is_lower, is_digit, starts_with}
use devops_agent.Dict.{Dict}

-- `ALLOWED_BINARIES`, each with its allowed subcommands; none stands for any
unfoldable pub allowed_binaries : Dict (List Text)
allowed_binaries =
    (
      codes "docker",
      codes "ps"
          ∷ codes "images"
          ∷ codes "inspect"
          ∷ codes "stats"
          ∷ codes "logs"
          ∷ codes "version"
          ∷ [],
    )
    ∷ (codes "kubectl", codes "get" ∷ codes "cluster-info" ∷ codes "version" ∷ [])
    ∷ (codes "systemctl", codes "status" ∷ [])
    ∷ (codes "grep", [])
    ∷ (codes "head", [])
    ∷ (codes "tail", [])
    ∷ (codes "cat", [])
    ∷ (codes "find", [])
    ∷ (codes "stat", [])
    ∷ (codes "df", [])
    ∷ (codes "free", [])
    ∷ (codes "uptime", [])
    ∷ (codes "nproc", [])
    ∷ (codes "ps", [])
    ∷ (codes "wc", [])
    ∷ (codes "du", [])
    ∷ []

unfoldable pub denied_tokens : List Text
denied_tokens =
    codes "rm"
    ∷ codes "mv"
    ∷ codes "cp"
    ∷ codes "chmod"
    ∷ codes "chown"
    ∷ codes "mkfs"
    ∷ codes "shutdown"
    ∷ codes "reboot"
    ∷ codes "dd"
    ∷ codes "sudo"
    ∷ codes "su "
    ∷ codes "curl"
    ∷ codes "wget"
    ∷ codes "bash"
    ∷ codes "sh "
    ∷ codes "zsh"
    ∷ codes "python"
    ∷ codes "perl"
    ∷ codes "ruby"
    ∷ codes "eval"
    ∷ codes "exec "
    ∷ codes "xargs"
    ∷ codes "tee "
    ∷ codes "apt"
    ∷ codes "apt-get"
    ∷ codes "yum"
    ∷ codes "pip"
    ∷ codes "npm"
    ∷ codes "docker exec"
    ∷ codes "docker rm"
    ∷ codes "docker kill"
    ∷ codes "docker prune"
    ∷ codes "docker system"
    ∷ codes "docker stop"
    ∷ codes "docker start"
    ∷ codes "docker restart"
    ∷ codes "docker create"
    ∷ codes "docker run"
    ∷ codes "docker commit"
    ∷ codes "docker cp"
    ∷ codes "kubectl delete"
    ∷ codes "kubectl apply"
    ∷ codes "kubectl exec"
    ∷ codes "kubectl create"
    ∷ codes "kubectl patch"
    ∷ codes "kubectl edit"
    ∷ codes "kubectl scale"
    ∷ codes "kubectl rollout"
    ∷ codes "kubectl run"
    ∷ codes "systemctl stop"
    ∷ codes "systemctl disable"
    ∷ codes "systemctl mask"
    ∷ codes "systemctl restart"
    ∷ codes "systemctl start"
    ∷ codes "systemctl enable"
    ∷ codes "iptables"
    ∷ codes "ufw"
    ∷ codes "firewall"
    ∷ codes "useradd"
    ∷ codes "userdel"
    ∷ codes "passwd "
    ∷ codes "history -c"
    ∷ codes "base64 "
    ∷ codes "nc "
    ∷ codes "ncat"
    ∷ codes "socat"
    ∷ codes "ssh "
    ∷ codes "scp "
    ∷ []

-- a character that `_SHELL_META_RE` finds
unfoldable pub is_shell_meta : ℕ → Bool
is_shell_meta c =
    any (λ m. m == c) (codes ";|&$`()<>{}[]!*?~") || (c == 92) || (c == 10) || (c == 13) || (c == 9)

-- A part of a template: a literal code point, or a placeholder by its name.
pub data Piece : Type 0 where
  plain : ℕ → Piece
  slot : Text → Piece

-- what is being read: nothing, or `{` and the name so far
pub data Reading : Type 0 where
  outside : Reading
  opened : Text → Reading

-- what was read turns out not to be a placeholder
unfoldable pub literally : Reading → List Piece
literally outside = []
literally (opened name) = plain b'{' ∷ map plain name

unfoldable pub read_outside : ℕ → List Piece × Reading
read_outside c = if c == b'{' then ([], opened []) else (plain c ∷ [], outside)

-- a character of a placeholder's name, at its start and behind it
unfoldable pub is_name_start : ℕ → Bool
unfolding is_lower
is_name_start c = is_lower c || (c == b'_')

unfoldable pub is_name_rest : ℕ → Bool
unfolding is_name_start is_digit
is_name_rest c = is_name_start c || is_digit c

unfoldable pub end_name : Reading → ℕ → List Piece × Reading
unfolding read_outside literally
end_name r c = let (out, next) = read_outside c in (literally r ++ out, next)

unfoldable pub read_step : Reading → ℕ → List Piece × Reading
unfolding read_outside end_name is_name_start is_name_rest
read_step outside c = read_outside c
read_step (opened []) c = if is_name_start c then ([], opened (c ∷ [])) else end_name (opened []) c
read_step (opened (n ∷ name)) c =
    if is_name_rest c
    then ([], opened (n ∷ name ++ c ∷ []))
    else (if c == b'}' then (slot (n ∷ name) ∷ [], outside) else end_name (opened (n ∷ name)) c)

unfoldable pub pieces_from : Reading → Text → List Piece
unfolding read_step literally
pieces_from r [] = literally r
pieces_from r (c ∷ s) = let (out, next) = read_step r c in out ++ pieces_from next s

-- a text cut at the matches of `_PLACEHOLDER_RE`
unfoldable pub pieces : Text → List Piece
unfolding pieces_from
pieces s = pieces_from outside s

-- `_PLACEHOLDER_RE.sub("PH", template)`
unfoldable pub mask : List Piece → Text
mask [] = []
mask (plain c ∷ ps) = c ∷ mask ps
mask (slot name ∷ ps) = codes "PH" ++ mask ps

-- `re.findall`, the names of the placeholders
unfoldable pub placeholders : List Piece → List Text
placeholders [] = []
placeholders (plain c ∷ ps) = placeholders ps
placeholders (slot name ∷ ps) = name ∷ placeholders ps

-- `_PLACEHOLDER_RE.fullmatch(word)`
unfoldable pub is_slot : List Piece → Bool
is_slot (slot name ∷ []) = true
is_slot _ = false

unfoldable pub is_subcommand : Text → Bool
unfolding starts_with pieces is_slot
is_subcommand word = not (starts_with (codes "-") word) && not (is_slot (pieces word))

-- the first word that is neither a flag nor a placeholder
unfoldable pub first_subcommand : List Text → Option Text
unfolding is_subcommand
first_subcommand [] = none
first_subcommand (w ∷ ws) =
    let rest = first_subcommand ws in if is_subcommand w then some w else rest

unfoldable pub is_allowed_subcommand : List Text → Option Text → Bool
unfolding is_in
is_allowed_subcommand [] subcommand = true
is_allowed_subcommand (p ∷ ps) none = true
is_allowed_subcommand (p ∷ ps) (some word) = is_in word (p ∷ ps)
