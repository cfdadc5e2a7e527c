-- ===== src/Policy/Grammar/Words.antt =====
-- The words of the finite grammar of src/policy.rs: the flags, values and verbs of each program.
use securecrt_mcp.Prelude.{List, [], ◌∷◌}
use securecrt_mcp.Text.{Text, codes}

-- The lists of flags and values of `safe_command`, by program.
abbrev pub hostname_flags : List Text
hostname_flags = codes "-s" ∷ codes "-f" ∷ codes "-I" ∷ []

abbrev pub uname_flags : List Text
uname_flags =
    codes "-a"
    ∷ codes "-s"
    ∷ codes "-n"
    ∷ codes "-r"
    ∷ codes "-v"
    ∷ codes "-m"
    ∷ codes "-p"
    ∷ codes "-i"
    ∷ codes "-o"
    ∷ []

abbrev pub uptime_flags : List Text
uptime_flags = codes "-p" ∷ codes "-s" ∷ []

abbrev pub id_flags : List Text
id_flags = codes "-u" ∷ codes "-g" ∷ codes "-G" ∷ codes "-n" ∷ codes "-r" ∷ []

abbrev pub free_flags : List Text
free_flags =
    codes "-h" ∷ codes "-m" ∷ codes "-g" ∷ codes "-b" ∷ codes "-k" ∷ codes "-w" ∷ codes "-t" ∷ []

abbrev pub df_flags : List Text
df_flags = codes "-h" ∷ codes "-T" ∷ codes "-i" ∷ codes "-a" ∷ codes "-P" ∷ []

abbrev pub ls_flags : List Text
ls_flags =
    codes "-l"
    ∷ codes "-a"
    ∷ codes "-la"
    ∷ codes "-al"
    ∷ codes "-lh"
    ∷ codes "-lah"
    ∷ codes "-alh"
    ∷ codes "-h"
    ∷ codes "-d"
    ∷ codes "-ld"
    ∷ codes "-ltr"
    ∷ []

abbrev pub ss_flags : List Text
ss_flags =
    codes "-lntp" ∷ codes "-lntup" ∷ codes "-antp" ∷ codes "-tulpn" ∷ codes "-lnt" ∷ codes "-s" ∷ []

abbrev pub lines_values : List Text
lines_values = codes "-n" ∷ []

abbrev pub ip_objects : List Text
ip_objects = codes "addr" ∷ codes "address" ∷ codes "link" ∷ codes "route" ∷ codes "neigh" ∷ []

abbrev pub ip_values : List Text
ip_values = codes "dev" ∷ []

abbrev pub dmesg_flags : List Text
dmesg_flags = codes "--ctime" ∷ codes "--human" ∷ codes "--decode" ∷ []

abbrev pub journalctl_flags : List Text
journalctl_flags = codes "--no-pager" ∷ codes "--utc" ∷ codes "-b" ∷ codes "-k" ∷ []

abbrev pub journalctl_values : List Text
journalctl_values = codes "-n" ∷ codes "-u" ∷ codes "--since" ∷ codes "--until" ∷ []

abbrev pub systemctl_verbs : List Text
systemctl_verbs =
    codes "status"
    ∷ codes "show"
    ∷ codes "is-active"
    ∷ codes "is-enabled"
    ∷ codes "list-units"
    ∷ codes "list-unit-files"
    ∷ []

abbrev pub systemctl_flags : List Text
systemctl_flags = codes "--no-pager" ∷ codes "--full" ∷ codes "--all" ∷ []

abbrev pub docker_ps_flags : List Text
docker_ps_flags = codes "-a" ∷ codes "--no-trunc" ∷ []

abbrev pub docker_stats_flags : List Text
docker_stats_flags = codes "--no-stream" ∷ []

abbrev pub docker_logs_flags : List Text
docker_logs_flags = codes "--timestamps" ∷ []

abbrev pub docker_logs_values : List Text
docker_logs_values = codes "--tail" ∷ codes "--since" ∷ []

abbrev pub kubectl_verbs : List Text
kubectl_verbs =
    codes "get"
    ∷ codes "describe"
    ∷ codes "logs"
    ∷ codes "top"
    ∷ codes "version"
    ∷ codes "api-resources"
    ∷ codes "api-versions"
    ∷ []

abbrev pub kubectl_flags : List Text
kubectl_flags =
    codes "-A"
    ∷ codes "--all-namespaces"
    ∷ codes "--previous"
    ∷ codes "--timestamps"
    ∷ codes "--no-headers"
    ∷ []

abbrev pub kubectl_values : List Text
kubectl_values =
    codes "-n"
    ∷ codes "--namespace"
    ∷ codes "-c"
    ∷ codes "--container"
    ∷ codes "-o"
    ∷ codes "--output"
    ∷ codes "--tail"
    ∷ codes "--since"
    ∷ []
