-- ===== src/Diagnostic.antt =====
-- The diagnostics that the row stages return (limulus/models.py, `Diagnostic`, of which they set
-- the code, the severity and the message), and their builders in limulus/execution/rewrites.py.
use limulus.Prelude.{◌++◌}
use limulus.Text.{Text, codes}

pub record Diagnostic : Type 0 where
  pub code : Text
  pub severity : Text
  pub message : Text

unfoldable pub build_runtime_set_not_found : Text → Diagnostic
build_runtime_set_not_found input_name = record {
  code = codes "RUNTIME_SET_DATASET_NOT_FOUND";
  severity = codes "error";
  message = codes "Input dataset is not provided: " ++ input_name;
}

unfoldable pub build_by_precondition_failed : Text → Text → Diagnostic
build_by_precondition_failed by_key input_name = record {
  code = codes "RUNTIME_BY_PRECONDITION_FAILED";
  severity = codes "error";
  message =
      codes "BY key '"
      ++ (by_key ++ (codes "' is missing in source '" ++ (input_name ++ codes "'.")));
}

unfoldable pub build_by_rows_precondition_failed : Text → Diagnostic
build_by_rows_precondition_failed by_key = record {
  code = codes "RUNTIME_BY_PRECONDITION_FAILED";
  severity = codes "error";
  message = codes "BY key '" ++ (by_key ++ codes "' is missing in source rows.");
}

unfoldable pub build_merge_duplicate_column : Text → Diagnostic
build_merge_duplicate_column duplicate_label = record {
  code = codes "RUNTIME_MERGE_DUPLICATE_COLUMN";
  severity = codes "error";
  message = codes "MERGE inputs contain duplicate non-BY columns: " ++ duplicate_label;
}

unfoldable pub build_internal_var_collision : Text → Text → Diagnostic
build_internal_var_collision variable_name source_name = record {
  code = codes "RUNTIME_INTERNAL_VAR_NAME_COLLISION";
  severity = codes "error";
  message =
      codes "Input dataset contains a reserved internal reference variable name: "
      ++ (variable_name ++ (codes " (source=" ++ (source_name ++ codes ")")));
}
