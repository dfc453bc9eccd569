-- ===== src/Service/Apply/Tests.antt =====
-- An apply of one engine on a small disk: refused, rolled back, and successful.
use mathlib.Core.List.{append_cancel_left}
use portguard_v.Base.{
  Bool, true, false, [], ◌∷◌, ◌++◌, none, some, codes, eqb, ◌≡◌, refl, sym, ap, ◌∙◌, inl, inr,
  arith, if◌then◌else◌,
}
use portguard_v.Service.Host.{
  FilePath, Os, World, Audit, Deploy, set_version_result, prepare_temp, atomic_write, read_file,
  is_not_exist, mkdir_all, write_file, remove_file, copy_file, read_dir, remove_all,
}
use portguard_v.Service.Prune.{pruned, remove_folders, prune_backups}
use portguard_v.Service.Apply.{
  Engine, Layout, Failure, Outcome, failure, success, stage_engine, stage_engines, count_enabled,
  count_engine, write_cert, write_certs, write_cert_files, backup_file, backup_files, find_new,
  restore_file, restore, write_all, reload_all, reload_again, write_and_reload, deploy, apply_all,
}
use portguard_v.Service.Apply.Rollback.{IsReliable}
use portguard_v.Service.Apply.Atomic.{BackupsApart, apply_all_rolled_back}
use portguard_v.Service.Apply.Stages.{apply_all_rejected, rendered_paths}
use portguard_v.Service.Apply.Success.{IsLive, apply_all_success}

abbrev pub os : Os
os = record { fault = λ n c. false; torn = λ n p. none; survives = λ n p. false }

pub os-IsReliable : IsReliable os
os-IsReliable = record {
  reads = λ n p. refl;
  writes = λ n p. refl;
  removes = λ n p. refl;
  stats = λ n p. refl;
}

abbrev pub layout : Layout
layout = record {
  certs_dir = codes "/certs";
  crt_path = λ i. codes "/certs/crt";
  key_path = λ i. codes "/certs/key";
  pem_path = λ i. codes "/certs/pem";
  backup_path = λ p. codes "/bak" ++ p;
  run = codes "20260101-000000";
  folders = record { is_timestamp = λ t. true; inside = λ d p. false };
}

pub one_place : (p q : FilePath) → layout.backup_path p ≡ layout.backup_path q → p ≡ q
one_place p q = append_cancel_left (codes "/bak") p q

-- An engine of one file, which accepts and reloads as told.
abbrev pub engine : Bool → Bool → Engine
engine valid reloads = record {
  name = codes "nginx";
  installed = true;
  render = λ ms cs. some ((codes "nginx.conf", codes "new") ∷ []);
  validate = λ fs. valid;
  live_path = λ rel. codes "/etc/" ++ rel;
  reload = λ n d. reloads;
}

-- One live file, of older content.
abbrev world : World
world = record {
  disk = λ p. if eqb p (codes "/etc/nginx.conf") then some (codes "old") else none;
  calls = 0;
  log = [];
  stamped = [];
  pending = 0;
  backups = [];
}

-- What a run of ApplyAll computes with.
apply : Unit {0}
unfolding apply_all stage_engine stage_engines set_version_result deploy write_cert_files
    write_certs write_cert backup_files backup_file find_new write_and_reload write_all atomic_write
    prepare_temp reload_all reload_again restore restore_file copy_file read_file write_file
    remove_file mkdir_all is_not_exist prune_backups read_dir remove_folders remove_all pruned
    count_enabled count_engine eqb
apply = tt

abbrev run : Bool → Bool → Outcome × World
run valid reloads = apply_all os layout (engine valid reloads ∷ []) (some ([], [])) 7 world

rolled_back : (run true false).0 ≡ failure (Failure.reload_failed (codes "nginx"))
unfolding apply
rolled_back = refl

succeeded : ((run true true).0 ≡ success) × ((run true true).1.stamped ≡ (7, Deploy.done) ∷ [])
unfolding apply
succeeded = (refl, refl)

refused :
    ((run false true).0 ≡ failure (Failure.validate_failed (codes "nginx")))
    × ((run false true).1.log ≡ Audit.validation_failed (codes "nginx") ∷ [])
unfolding apply
refused = (refl, refl)

apply_all_rejected_example :
    ((run false true).1.disk ≡ world.disk) × ((f : Failure) × ((run false true).0 ≡ failure f))
apply_all_rejected_example =
    apply_all_rejected os layout (engine false true ∷ []) (engine false true) [] [] 7 world
      (inl refl) (inr (refl, λ fs e. refl))

apart : BackupsApart layout (engine true false ∷ [])
apart e k rel r h = elim k [
  | inl same ↦
      let at : layout.backup_path r ≡ codes "/etc/" ++ rel =
        h ∙ ap (λ (z : Engine). z.live_path rel) (sym same) in
      ground arith
  | inr none_left ↦ absurd none_left
]

apply_all_rolled_back_example :
    (run true false).1.disk (codes "/etc/nginx.conf") ≡ world.disk (codes "/etc/nginx.conf")
apply_all_rolled_back_example =
    apply_all_rolled_back os layout os-IsReliable one_place (engine true false ∷ []) [] [] 7 world
      (Failure.reload_failed (codes "nginx")) apart tt rolled_back (codes "/etc/nginx.conf")
      (λ r h. ground arith) (λ i. (ground arith, ground arith, ground arith))

apply_all_success_example : IsLive [] [] (engine true true) (run true true).1.disk
unfolding rendered_paths
apply_all_success_example =
    apply_all_success os layout (engine true true ∷ []) [] [] 7 world (engine true true)
      ((λ k. absurd k), tt) (λ rel d. refl) succeeded.0 (inl refl) refl
