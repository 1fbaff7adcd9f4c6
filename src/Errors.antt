-- ===== src/Errors.antt =====
-- The error types of include/rmw_iceoryx2_cxx/impl/common/error.hpp, and the codes of `rmw_ret_t`
-- that the program returns. `RMW_RET_OK` is the constructor `ok` of `Expected`.
pub data MemoryError : Type 0 where
  allocation construction cast : MemoryError

pub data HandleError : Type 0 where
  invalid_instance_name iceoryx_handle_creation_failure : HandleError

pub data ContextError : Type 0 where
  invariant_violation handle_creation_failure : ContextError

pub data NodeError : Type 0 where
  invariant_violation handle_creation_failure graph_guard_condition_creation_failure : NodeError

pub data GuardConditionError : Type 0 where
  invariant_violation service_name_creation_failure service_creation_failure : GuardConditionError
  notifier_creation_failure notification_failure : GuardConditionError

pub data SampleRegistryError : Type 0 where
  invalid_payload : SampleRegistryError

pub data PublisherError : Type 0 where
  invariant_violation service_name_creation_failure service_creation_failure : PublisherError
  publisher_creation_failure notifier_creation_failure loan_failure send_failure : PublisherError
  notification_failure invalid_payload : PublisherError

pub data SubscriberError : Type 0 where
  invariant_violation service_name_creation_failure service_creation_failure : SubscriberError
  subscriber_creation_failure recv_failure invalid_payload : SubscriberError

pub data WaitSetError : Type 0 where
  invariant_violation waitset_creation_failure service_name_creation_failure : WaitSetError
  service_creation_failure listener_creation_failure invalid_waitable_type : WaitSetError
  invalid_storage_index attachment_failure listener_failure wait_failure : WaitSetError

pub data RetCode : Type 0 where
  timeout error bad_alloc invalid_argument incorrect_rmw_implementation unsupported : RetCode
