-- ===== src/Tools/Install.antt =====
-- The installer that `_ensure_tools` runs on a host.
use oracle_patching.Prelude.{◌++◌}
use oracle_patching.Prelude.Text.{codes}
use oracle_patching.Remote.Quote.{Text, quote}

-- The script, of the pushed archive, the text of lib/opu/python.sh, the root of the tree without its
-- final slashes, the path of the stamp and the fingerprint.
unfoldable pub install_script : (archive helper root stamp want : Text) → Text
install_script archive helper root stamp want =
    codes "set -eu; work=''; stage='initializing'; archive="
    ++ quote archive
    ++ codes "; cleanup() { result=$?; if [ \"$result\" -ne 0 ]; then printf "
    ++ codes "'opu-tools: %s failed (exit %s)\\n' \"$stage\" \"$result\" >&2; fi; if [ "
    ++ codes "-n \"$work\" ]; then rm -rf -- \"$work\"; fi; rm -f -- \"$archive\"; exit "
    ++ codes "\"$result\"; }; trap cleanup EXIT;\n"
    ++ helper
    ++ codes "\nstage='checking Python 3.9 or newer'; "
    ++ codes "runtime_python=$(opu_find_python); stage='preparing runtime "
    ++ codes "directory'; mkdir -p "
    ++ quote root
    ++ codes "; cd "
    ++ quote root
    ++ codes "; stage='checking install lock'; test ! -L .opu-tools-install.lock; [ "
    ++ codes "! -e .opu-tools-install.lock ] || test -f .opu-tools-install.lock; "
    ++ codes "exec 8>>.opu-tools-install.lock; \"$runtime_python\" -c 'import "
    ++ codes "os,stat; s=os.fstat(8); assert stat.S_ISREG(s.st_mode) and s.st_nlink "
    ++ codes "== 1'; stage='waiting for install lock'; flock -w 120 8; "
    ++ codes "stage='staging runtime'; work=$(mktemp -d .opu-tools-new.XXXXXX); tar "
    ++ codes "-xzf \"$archive\" -C \"$work\"; for d in bin lib operations; do test -d "
    ++ codes "\"$work/$d\"; done; for m in adapters.py durable.py agent_queue.py "
    ++ codes "agent_enroll.py agent_worker.py; do test -f \"$work/webapp/$m\"; done; "
    ++ codes "stage='validating Python runtime imports'; \"$runtime_python\" -B -c "
    ++ codes "'import sys; sys.path.insert(0, sys.argv[1]); import agent_worker, "
    ++ codes "agent_queue, agent_enroll' \"$work/webapp\"; stage='installing "
    ++ codes "runtime'; test ! -L webapp; rm -f "
    ++ quote stamp
    ++ codes "; for d in bin lib operations; do if [ -e \"$d\" ] || [ -L \"$d\" ]; then "
    ++ codes "mv \"$d\" \"$work/$d.old\"; fi; mv \"$work/$d\" \"$d\" || { [ ! -e "
    ++ codes "\"$work/$d.old\" ] || mv \"$work/$d.old\" \"$d\"; exit 1; }; chmod -R a+rX "
    ++ codes "\"$d\"; done; test ! -L webapp; mkdir -p webapp; for m in adapters.py "
    ++ codes "durable.py agent_queue.py agent_enroll.py agent_worker.py; do mv "
    ++ codes "\"$work/webapp/$m\" \"webapp/$m\"; chmod a+r \"webapp/$m\"; done; "
    ++ codes "stage='writing runtime fingerprint'; printf '%s\\n' "
    ++ quote want
    ++ codes " > \"$work/stamp\"; chmod a+r \"$work/stamp\"; mv \"$work/stamp\" "
    ++ quote stamp
