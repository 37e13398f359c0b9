-- ===== src/Model/Constants.antt =====
-- model/src/constants.rs: the constants that the controller, the clients and the agents read.
use bottlerocket_test_system.Base.{ℕ, String}

abbrev pub namespace : String
namespace = "testsys"

-- a label of pods
abbrev pub label_component : String
label_component = "testsys.system/component"

-- names of the finalizers
abbrev pub finalizer_creation_job : String
finalizer_creation_job = "testsys.system/resource-creation-job"

abbrev pub finalizer_main : String
finalizer_main = "testsys.system/controlled"

abbrev pub finalizer_resource : String
finalizer_resource = "testsys.system/resources-exist"

abbrev pub finalizer_cleanup_required : String
finalizer_cleanup_required = "testsys.system/resources-cleanup-required"

abbrev pub finalizer_test_job : String
finalizer_test_job = "testsys.system/test-job"

-- environment variables of the agents
abbrev pub env_resource_action : String
env_resource_action = "TESTSYS_RESOURCE_ACTION"

abbrev pub env_resource_name : String
env_resource_name = "TESTSYS_RESOURCE_NAME"

abbrev pub env_test_name : String
env_test_name = "TESTSYS_TEST_NAME"

abbrev pub testsys_results_file : String
testsys_results_file = "/output.tar.gz"

abbrev pub trunc_len : ℕ
trunc_len = 15
