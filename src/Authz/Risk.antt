-- ===== src/Authz/Risk.antt =====
-- ClassifyRisk (packages/authz/authz.go). `lower_trim` is strings.ToLower(strings.TrimSpace(command)).
use text.Mathlib.Text.{find?}
use vpstools.Base.{String, Bool, true, false, none, some, List, [], ◌∷◌, any, if◌then◌else◌}

-- strings.Contains.
unfoldable pub contains : String → String → Bool
contains s p = elim (find? s p) [ none ↦ false | some at ↦ true ]

abbrev pub dangerous : List String
dangerous =
    "rm " ∷ "dd " ∷ "mkfs" ∷ "fdisk" ∷ "reboot" ∷ "shutdown" ∷ "kill " ∷ "killall" ∷ "iptables"
    ∷ "nf_tables" ∷ "sysctl" ∷ "chmod 777" ∷ "> /dev/sda" ∷ "mkfs." ∷ "format" ∷ []

abbrev pub high_risk : List String
high_risk =
    "systemctl restart" ∷ "service " ∷ "docker rm" ∷ "docker stop" ∷ "kubectl delete"
    ∷ "pip uninstall" ∷ "npm uninstall -g" ∷ "apt-get purge" ∷ "yum remove" ∷ []

abbrev pub medium_risk : List String
medium_risk =
    "systemctl stop" ∷ "systemctl start" ∷ "systemctl reload" ∷ "docker restart" ∷ "docker run"
    ∷ "kubectl apply" ∷ "curl " ∷ "wget " ∷ "pip install" ∷ "npm install -g" ∷ "apt-get install"
    ∷ "yum install" ∷ []

unfoldable pub classify_risk : (String → String) → String → String
classify_risk lower_trim command =
    let cmd = lower_trim command in
    if any (contains cmd) dangerous
    then "critical"
    else if any (contains cmd) high_risk
    then "high"
    else if any (contains cmd) medium_risk
    then "medium"
    else "low"
